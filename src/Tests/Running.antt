-- ===== src/Tests/Running.antt =====
-- The daemon from its start to its end, over the simulated network.
use segwire.Base.{false, none, [], ◌++◌, ok, ◌≡◌, ◌&&◌, ◌||◌, refl}
use segwire.Text.{Text, lit}
use segwire.Map.{contains_key}
use segwire.Netlink.{NamespaceInfo}
use segwire.Netlink.Simulated.{SimulatedState, new_simulated, list_simulated}
use segwire.ConfigManager.{namespace_prefix, scan_namespace_configs}
use segwire.ConfigManager.Prefix.{matches_prefix}
use segwire.StateManager.Tracking.{is_tracked}
use segwire.Service.Handlers.{delete_namespace}
use segwire.Service.Stages.{no_call}
use segwire.EventLoop.{
  Daemon, starting, configs, states, initial_sync, request_shutdown, sync_after_change,
}
use segwire.EventLoop.Steps.{
  Reach, begins, steps, begin_run, method_call, process_call, continue_call, call_stage, first_sync,
  interrupted,
}
use segwire.EventLoop.Invariant.{IsSound, Reach-IsSound, Reach-sync_after_change}
use segwire.EventLoop.Shutdown.{
  graceful_shutdown, graceful_shutdown-emitted, deletions, last_signal, should_cleanup_on_shutdown,
}
use segwire.Tests.Data.{
  ascii_digits, no_base64, daemon_config, files, empty_manager, fresh_states, network,
}
use segwire.Error.{SegwireResult}
use segwire.Tests.Serving.{backends, host, service}

-- The daemon behind its first scan.
abbrev begun : Daemon SimulatedState SimulatedState
begun = record {
  service = record {
    config_manager = (scan_namespace_configs files empty_manager).1;
    state_manager = fresh_states;
    real = new_simulated 0;
    authorizer = none;
  };
  config_due = false;
  sync_thread = starting;
  call = no_call;
  queue = [];
  emitted = [];
  shutdown = false;
}

begun-started :
    begin_run files daemon_config (lit "segwire.toml") fresh_states (new_simulated 0) none
    ≡ ok begun
unfolding begin_run lit
begun-started = refl

begun-reached : Reach backends begun
begun-reached =
    begins files daemon_config (lit "segwire.toml") fresh_states (new_simulated 0) none begun
      begun-started

-- A call over D-Bus comes and reads the full name; the state-sync thread synchronises; the call goes on;
-- and then the termination signal comes.
abbrev called : Daemon SimulatedState SimulatedState
called = process_call backends host (lit ":1.7") (delete_namespace (lit "vpn")) begun

abbrev read_name : Daemon SimulatedState SimulatedState
read_name = continue_call backends called

abbrev between : Daemon SimulatedState SimulatedState
between = initial_sync backends read_name

abbrev stopping : Daemon SimulatedState SimulatedState
stopping = request_shutdown (continue_call backends between)

called-sync_thread : read_name.sync_thread ≡ starting
unfolding continue_call process_call
called-sync_thread = refl

between-reached : Reach backends between
between-reached =
    steps
      (steps
        (steps begun-reached
          (method_call host (lit ":1.7") (delete_namespace (lit "vpn")) begun refl))
        (call_stage called))
      (first_sync read_name called-sync_thread)

Reach-IsSound_example : IsSound stopping
Reach-IsSound_example = Reach-IsSound backends (
    steps (steps between-reached (call_stage between))
      (interrupted (continue_call backends between)))

nothing-listed : network.list_namespaces (states begun).netlink_manager ≡ (ok [], new_simulated 0)
unfolding list_simulated
nothing-listed = refl

Reach-sync_after_change_example :
    is_tracked (lit "sw-vpn") (states (sync_after_change backends begun)) ≡ (
      contains_key (lit "sw-vpn") (configs begun).namespace_configs
      || (is_tracked (lit "sw-vpn") (states begun)
          && (matches_prefix (namespace_prefix (configs begun)) (lit "sw-vpn")
              && contains_key {V = NamespaceInfo} (lit "sw-vpn") [])))
Reach-sync_after_change_example =
    Reach-sync_after_change backends begun-reached nothing-listed (lit "sw-vpn")

-- No interface has to be moved back.
abbrev nothing_moves : Text → Text → SimulatedState → SegwireResult (Unit {0}) × SimulatedState
nothing_moves name interface r = (ok tt, r)

graceful_shutdown-emitted_example :
    ((graceful_shutdown backends nothing_moves begun).emitted
      ≡ []
        ++ (deletions backends nothing_moves
              (should_cleanup_on_shutdown (configs begun))
              (configs begun)
            ++ last_signal backends nothing_moves))
    × (should_cleanup_on_shutdown (configs begun) ≡ false
        → (graceful_shutdown backends nothing_moves begun).service ≡ begun.service)
graceful_shutdown-emitted_example = graceful_shutdown-emitted backends nothing_moves begun
