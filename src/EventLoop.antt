-- ===== src/EventLoop.antt =====
-- crates/segwire-daemon/src/event_loop.rs: the daemon's three threads over the two managers. A round of a
-- thread is a function on the daemon's state, cut where it gives up its locks; the threads, the calls over
-- D-Bus and what happens outside of the daemon come in any order.
pub mod Steps
pub mod Invariant
pub mod Shutdown
use segwire.Base.{
  ℕ, Bool, true, false, Option, none, some, List, [], ◌∷◌, ◌++◌, map, Result, ok, err, ◌≡◌,
}
use segwire.Text.{Text, lit}
use segwire.Map.{Map, keys, lookup}
use segwire.Error.{SegwireResult}
use segwire.Utils.Address.{UnicodeDigits}
use segwire.Config.{DaemonConfig}
use segwire.Config.Validate.{Base64}
use segwire.ConfigManager.{
  FileSystem, ConfigManager, ConfigFileEvent, NamespaceConfigEntry, scan_namespace_configs,
  handle_file_event,
}
use segwire.Netlink.{Netlink}
use segwire.StateManager.{NamespaceStateManager, SyncResult, needs_sync, perform_maintenance}
use segwire.StateManager.Sync.{synchronize_state}
use segwire.Policykit.{Authorities}
use segwire.Service.{Host, ServiceState, Backends}
use segwire.Service.Handlers.{Request}
use segwire.Service.Stages.{CallStage}

-- What the threads tell the main loop, which makes a signal of it.
pub data DaemonEvent : Type 0 where
  created_event deleted_event : Text → Text → DaemonEvent
  status_changed : Text → Text → Text → DaemonEvent

-- The signals of the service, by what is appended to their messages; the progress is left out.
pub data Signal : Type 0 where
  namespace_created namespace_deleted : Text → Text → Signal
  namespace_status_changed : Text → Text → Text → Signal
  operation_progress : Text → Text → Signal

-- Where the state-sync thread stands: before its first synchronisation, asleep, or behind a check that
-- asked for a synchronisation.
pub data SyncThread : Type 0 where
  starting sleeping due : SyncThread

-- The daemon: the state behind the D-Bus handlers, which holds both managers; whether the thread
-- config-monitor is about to synchronise; the state-sync thread; the stage of the call that the main loop
-- dispatches, if it does; the channel of events; the signals that were emitted; the flag of the shutdown.
pub record Daemon (K R : Type 0) : Type 0 where
  pub service : ServiceState K R
  pub config_due : Bool
  pub sync_thread : SyncThread
  pub call : CallStage
  pub queue : List DaemonEvent
  pub emitted : List Signal
  pub shutdown : Bool

abbrev created_by : Text → Text → DaemonEvent
created_by source name = created_event name source

abbrev pub deleted_by : Text → Text → DaemonEvent
deleted_by source name = deleted_event name source

abbrev updated_event : Text → DaemonEvent
updated_event name = status_changed name (lit "unknown") (lit "updated")

-- The events that are sent behind a synchronisation.
unfoldable pub sync_events : Text → SyncResult → List DaemonEvent
unfolding lit
sync_events source r =
    map (created_by source) r.created
    ++ (map (deleted_by source) r.deleted ++ map updated_event r.updated)

abbrev pub is_affected : SegwireResult (List Text) → Bool
is_affected (ok (name ∷ names)) = true
is_affected (ok []) = false
is_affected (err e) = false

module _ {K R : Type 0} where
  abbrev pub configs : Daemon K R → ConfigManager
  configs d = d.service.config_manager

  abbrev pub states : Daemon K R → NamespaceStateManager K
  states d = d.service.state_manager

  abbrev pub with_states : NamespaceStateManager K → Daemon K R → Daemon K R
  with_states m d = record d { service = record d.service { state_manager = m } }

  abbrev pub send_events : List DaemonEvent → Daemon K R → Daemon K R
  send_events events d = record d { queue = d.queue ++ events }

  module _ (on : Backends K R) where
    -- Both managers are locked for a synchronisation.
    abbrev pub synchronized : Daemon K R → SyncResult × Daemon K R
    synchronized d =
        let (result, m) = synchronize_state on.managed (configs d) (states d) in
        (result, with_states m d)

    -- config-monitor, where the event has affected namespaces: force_sync and the events of it
    unfoldable pub sync_after_change : Daemon K R → Daemon K R
    unfolding lit sync_events synchronize_state
    sync_after_change d =
        let (result, d') = synchronized d in
        send_events (sync_events (lit "config_change") result) (record d' { config_due = false })

    -- state-sync, its first synchronisation; only creations are told
    unfoldable pub initial_sync : Daemon K R → Daemon K R
    unfolding lit synchronize_state
    initial_sync d =
        let (result, d') = synchronized d in
        send_events (map (created_by (lit "initial_sync")) result.created)
          (record d' { sync_thread = sleeping })

    abbrev checked_thread : Bool → SyncThread
    checked_thread true = due
    checked_thread false = sleeping

    -- state-sync, the check of a round, which gives up its lock
    unfoldable pub check_sync : Daemon K R → Daemon K R
    unfolding needs_sync
    check_sync d =
        let (needed, m) = needs_sync on.managed (states d) in
        record (with_states m d) { sync_thread = checked_thread needed }

    -- state-sync, a synchronisation that is due, and the maintenance under the same lock
    unfoldable pub periodic_sync : Daemon K R → Daemon K R
    unfolding lit sync_events synchronize_state perform_maintenance
    periodic_sync d =
        let (result, d') = synchronized d in
        send_events (sync_events (lit "sync") result)
          (record (with_states (perform_maintenance on.managed (states d')) d') {
            sync_thread = sleeping;
          })

  -- A signal that is sent; where it cannot be sent, that is only logged.
  abbrev pub emit : Signal → Daemon K R → Daemon K R
  emit signal d = record d { emitted = d.emitted ++ signal ∷ [] }

  abbrev pub emit_namespace_created : Text → Text → Daemon K R → Daemon K R
  emit_namespace_created name config_path d = emit (namespace_created name config_path) d

  abbrev pub emit_namespace_deleted : Text → Text → Daemon K R → Daemon K R
  emit_namespace_deleted name reason d = emit (namespace_deleted name reason) d

  abbrev pub emit_namespace_status_changed : Text → Text → Text → Daemon K R → Daemon K R
  emit_namespace_status_changed name old_status new_status d =
      emit (namespace_status_changed name old_status new_status) d

  abbrev pub emit_operation_progress : Text → Text → Daemon K R → Daemon K R
  emit_operation_progress operation message d = emit (operation_progress operation message) d

  abbrev pub emit_event : DaemonEvent → Daemon K R → Daemon K R
  emit_event (created_event name source) d = emit_namespace_created name source d
  emit_event (deleted_event name source) d = emit_namespace_deleted name source d
  emit_event (status_changed name old_status new_status) d =
      emit_namespace_status_changed name old_status new_status d

  -- The main loop takes an event from the channel and emits its signal.
  abbrev pub drain_one : List DaemonEvent → Daemon K R → Daemon K R
  drain_one [] d = d
  drain_one (event ∷ rest) d = emit_event event (record d { queue = rest })

  unfoldable pub drain : Daemon K R → Daemon K R
  drain d = drain_one d.queue d

  -- request_shutdown, and the handler of SIGINT and SIGTERM
  abbrev pub request_shutdown : Daemon K R → Daemon K R
  request_shutdown d = record d { shutdown = true }
