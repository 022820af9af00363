-- ===== src/EventLoop/Shutdown.antt =====
-- graceful_shutdown of event_loop.rs, which comes behind the main loop.
use segwire.Base.{
  Bool, true, false, Option, none, some, List, [], ◌∷◌, ◌++◌, map, append_assoc, append-nil, ok,
  err, ◌≡◌, refl, sym, ap, ◌∙◌,
}
use segwire.Text.{Text, lit}
use segwire.Map.{keys, lookup}
use segwire.Error.{SegwireResult}
use segwire.ConfigManager.{ConfigManager, NamespaceConfigEntry}
use segwire.Service.{Backends}
use segwire.EventLoop.{
  Daemon, Signal, namespace_deleted, operation_progress, configs, emit_namespace_deleted,
  emit_operation_progress, request_shutdown,
}

-- ConfigManager::should_cleanup_on_shutdown
abbrev pub should_cleanup_on_shutdown : ConfigManager → Bool
should_cleanup_on_shutdown m = m.daemon_config.daemon.cleanup_on_shutdown

-- `move_back` is move_interface_from_namespace_to_default of the real backend.
module _ {K R : Type 0} (on : Backends K R)
    (move_back : Text → Text → R → SegwireResult (Unit {0}) × R) where
  unfoldable pub move_all_back : Text → List Text → R → R
  move_all_back name [] r = r
  move_all_back name (interface ∷ interfaces) r =
      move_all_back name interfaces (move_back name interface r).1

  abbrev moved_back : Text → Option NamespaceConfigEntry → R → R
  moved_back name none r = r
  moved_back name (some entry) r = move_all_back name entry.config.interfaces.move_interfaces r

  abbrev clean_backend : Text → Option NamespaceConfigEntry → SegwireResult (Unit {0}) × R → R
  clean_backend name entry (err e, r) = r
  clean_backend name entry (ok _, r) =
      (on.backend.delete_namespace name (moved_back name entry r)).1

  abbrev clean_system : Text → Daemon K R → R
  clean_system name d =
      clean_backend name (lookup name (configs d).namespace_configs)
        (on.open_backend d.service.real)

  -- One namespace: the signal first, then its interfaces and the deletion; errors are logged.
  unfoldable pub cleanup_namespace : Text → Daemon K R → Daemon K R
  unfolding lit lookup move_all_back
  cleanup_namespace name d =
      let d' = emit_namespace_deleted name (lit "daemon_shutdown") d in
      record d' { service = record d'.service { real = clean_system name d' } }

  unfoldable pub cleanup_all : List Text → Daemon K R → Daemon K R
  unfolding cleanup_namespace
  cleanup_all [] d = d
  cleanup_all (name ∷ names) d = cleanup_all names (cleanup_namespace name d)

  abbrev cleaned : Bool → Daemon K R → Daemon K R
  cleaned true d = cleanup_all (keys (configs d).namespace_configs) d
  cleaned false d = d

  unfoldable pub graceful_shutdown : Daemon K R → Daemon K R
  unfolding lit keys cleanup_all
  graceful_shutdown d =
      let stopping = request_shutdown d in
      emit_operation_progress (lit "daemon_shutdown") (lit "Daemon shutdown completed")
        (cleaned (should_cleanup_on_shutdown (configs stopping)) stopping)

  abbrev pub deletion : Text → Signal
  deletion name = namespace_deleted name (lit "daemon_shutdown")

  cleanup_all-emitted :
      (names : List Text) (d : Daemon K R)
      → (cleanup_all names d).emitted ≡ d.emitted ++ map deletion names
  unfolding cleanup_all cleanup_namespace
  cleanup_all-emitted [] d = sym (append-nil d.emitted)
  cleanup_all-emitted (name ∷ names) d =
      cleanup_all-emitted names (cleanup_namespace name d)
      ∙ append_assoc d.emitted (deletion name ∷ []) (map deletion names)

  abbrev pub last_signal : List Signal
  last_signal = operation_progress (lit "daemon_shutdown") (lit "Daemon shutdown completed") ∷ []

  abbrev pub deletions : Bool → ConfigManager → List Signal
  deletions true m = map deletion (keys m.namespace_configs)
  deletions false m = []

  cleaned-emitted :
      (cleanup : Bool) (d : Daemon K R)
      → ((cleaned cleanup d).emitted ++ last_signal
          ≡ d.emitted ++ (deletions cleanup (configs d) ++ last_signal))
        × (cleanup ≡ false → cleaned cleanup d ≡ d)
  cleaned-emitted true d = (
    ap (λ l. l ++ last_signal) (cleanup_all-emitted (keys (configs d).namespace_configs) d)
        ∙ append_assoc d.emitted (deletions true (configs d)) last_signal,
    λ off. absurd (cc),
  )
  cleaned-emitted false d = (refl, λ off. refl)

  -- A shutdown with cleanup announces the deletion of each configured namespace, whatever becomes of
  -- it, and one without cleanup announces none and leaves the managers and the system as they are.
  pub graceful_shutdown-emitted :
      (d : Daemon K R)
      → ((graceful_shutdown d).emitted
          ≡ d.emitted
            ++ (deletions (should_cleanup_on_shutdown (configs d)) (configs d) ++ last_signal))
        × (should_cleanup_on_shutdown (configs d) ≡ false
            → (graceful_shutdown d).service ≡ d.service)
  unfolding graceful_shutdown
  graceful_shutdown-emitted d =
      let (announced, same) =
        cleaned-emitted (should_cleanup_on_shutdown (configs d)) (request_shutdown d) in
      (announced, λ off. ap (λ d'. d'.service) (same off))
