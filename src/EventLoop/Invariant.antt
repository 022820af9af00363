-- ===== src/EventLoop/Invariant.antt =====
-- What holds in every state that the daemon can come to, in whatever order its threads run.
use segwire.Base.{◌&&◌, ◌||◌, List, [], ◌∷◌, ok, err, ◌≡◌, sym, subst}
use segwire.Text.{Text}
use segwire.Map.{Map, contains_key}
use segwire.Error.{SegwireResult}
use segwire.Utils.Address.{UnicodeDigits}
use segwire.Config.Validate.{Base64}
use segwire.Netlink.{NamespaceInfo}
use segwire.ConfigManager.{ConfigManager, namespace_prefix, scan_namespace_configs}
use segwire.ConfigManager.Prefix.{matches_prefix}
use segwire.ConfigManager.Keyed.{handle_file_event-IsKeyed, scan_namespace_configs-IsKeyed}
use segwire.StateManager.Tracking.{is_tracked}
use segwire.StateManager.Invariant.{IsNamed, synchronize_state-IsNamed, perform_maintenance-IsNamed}
use segwire.StateManager.Converge.{IsKeyed, is_tracked-synchronize_state}
use segwire.StateManager.Sync.{synchronize_state}
use segwire.Service.{ServiceState, Backends}
use segwire.Service.Stages.Keeping.{advance-IsKept}
use segwire.EventLoop.{
  Daemon, DaemonEvent, created_event, deleted_event, status_changed, configs, states, drain,
  drain_one, sync_after_change, initial_sync, check_sync, periodic_sync,
}
use segwire.EventLoop.Steps.{
  Step, Reach, file_event, config_sync, first_sync, wakes, round_sync, method_call, drained,
  interrupted, outside, begins, steps, begin_run, scanned, handle_config_event, process_call,
  continue_call, call_stage,
}

module _ {K R : Type 0} where
  -- The configurations stand under their full names, and so do the states.
  abbrev pub IsSound : Daemon K R → Type 0
  IsSound d = IsKeyed (configs d).namespace_configs × IsNamed (states d)

  drain-IsSound : (d : Daemon K R) → IsSound d → IsSound (drain d)
  unfolding drain
  drain-IsSound d h = go d.queue
    where
      go : (queue : List DaemonEvent) → IsSound (drain_one queue d)
      go [] = h
      go (created_event name source ∷ rest) = h
      go (deleted_event name source ∷ rest) = h
      go (status_changed name old_status new_status ∷ rest) = h

  module _ ⦃u : UnicodeDigits⦄ ⦃b : Base64⦄ (on : Backends K R) where
    Step-IsSound : {d d' : Daemon K R} → Step on d d' → IsSound d → IsSound d'
    unfolding handle_config_event sync_after_change initial_sync check_sync periodic_sync
        process_call continue_call
    Step-IsSound (file_event fs event d idle) (keyed, named) =
        (handle_file_event-IsKeyed fs event (configs d) keyed, named)
    Step-IsSound (config_sync d due) (keyed, named) =
        (keyed, synchronize_state-IsNamed on.managed (configs d) (states d) named)
    Step-IsSound (first_sync d starting) (keyed, named) =
        (keyed, synchronize_state-IsNamed on.managed (configs d) (states d) named)
    Step-IsSound (wakes d sleeping) (keyed, named) = (keyed, named)
    Step-IsSound (round_sync d due) (keyed, named) = (
      keyed,
      perform_maintenance-IsNamed on.managed (synchronize_state on.managed (configs d) (states d)).1
          (synchronize_state-IsNamed on.managed (configs d) (states d) named),
    )
    Step-IsSound (method_call host sender request d idle) h = h
    Step-IsSound (call_stage d) (keyed, named) =
        let (same, kept) = advance-IsKept on d.call d.service in
        (subst (λ m. IsKeyed m.namespace_configs) (sym same) keyed, kept named)
    Step-IsSound (drained d idle) h = drain-IsSound d h
    Step-IsSound (interrupted d) h = h
    Step-IsSound (outside k r d) h = h

    scanned-IsSound :
        (r : SegwireResult (List Text) × ConfigManager) (service : ServiceState K R)
        (d : Daemon K R)
        → IsKeyed r.1.namespace_configs
        → IsNamed service.state_manager
        → scanned r service ≡ ok d
        → IsSound d
    scanned-IsSound (ok loaded, m) service d keyed named h =
        subst (λ r. elim r [ ok d' ↦ IsSound d' | err e ↦ Unit {0} ]) h (keyed, named)
    scanned-IsSound (err e, m) service d keyed named h = absurd (cc)

    -- Whatever the threads, the callers over D-Bus and other programs do, in any order, and whatever
    -- fails: every configuration and every state stands under its own full name.
    pub Reach-IsSound : {d : Daemon K R} → Reach on d → IsSound d
    unfolding begin_run
    Reach-IsSound (begins fs daemon_config path network real authorizer d h) =
        scanned-IsSound (scan_namespace_configs fs _) _ d (scan_namespace_configs-IsKeyed fs _ tt)
          tt h
    Reach-IsSound (steps reach step) = Step-IsSound step (Reach-IsSound reach)

    -- In every state that the daemon can come to, a synchronisation behind a change of the
    -- configurations that can list the system's namespaces leaves the configured names tracked, and
    -- those that were tracked before, bear the prefix and exist in the system.
    pub Reach-sync_after_change :
        {d : Daemon K R} {actuals : Map NamespaceInfo} {k' : K}
        → Reach on d
        → on.managed.list_namespaces (states d).netlink_manager ≡ (ok actuals, k')
        → (k : Text)
        → is_tracked k (states (sync_after_change on d)) ≡ (
            contains_key k (configs d).namespace_configs
            || (is_tracked k (states d)
                && (matches_prefix (namespace_prefix (configs d)) k && contains_key k actuals)))
    unfolding sync_after_change
    Reach-sync_after_change {d} {actuals} {k'} reach listed k =
        is_tracked-synchronize_state on.managed (configs d) (states d) actuals k' k
          (Reach-IsSound reach).0 listed
