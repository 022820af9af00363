-- ===== src/EventLoop/Steps.antt =====
-- The start of the daemon, the steps of its threads and of the world around it, and the states that they
-- reach.
use segwire.Base.{true, false, Option, List, [], ok, err, ◌≡◌}
use segwire.Text.{Text}
use segwire.Error.{SegwireResult}
use segwire.Utils.Address.{UnicodeDigits}
use segwire.Config.{DaemonConfig}
use segwire.Config.Validate.{Base64}
use segwire.ConfigManager.{
  FileSystem, ConfigManager, ConfigFileEvent, scan_namespace_configs, handle_file_event,
}
use segwire.StateManager.{NamespaceStateManager}
use segwire.Policykit.{Authorities}
use segwire.Service.{Host, ServiceState, Backends}
use segwire.Service.Handlers.{Request}
use segwire.Service.Stages.{no_call, begin_call, advance}
use segwire.ConfigManager.Start.{from_config}
use segwire.EventLoop.{
  Daemon, starting, sleeping, due, configs, states, is_affected, sync_after_change, initial_sync,
  check_sync, periodic_sync, drain, request_shutdown,
}

module _ {K R : Type 0} where
  module _ ⦃u : UnicodeDigits⦄ ⦃b : Base64⦄ where
    -- config-monitor, one file event
    unfoldable pub handle_config_event : FileSystem → ConfigFileEvent → Daemon K R → Daemon K R
    unfolding handle_file_event
    handle_config_event fs event d =
        let (result, m) = handle_file_event fs event (configs d) in
        record d {
          service = record d.service { config_manager = m };
          config_due = is_affected result;
        }

    -- The main loop dispatches a method call, behind the checks of its argument and its sender.
    unfoldable pub process_call : Backends K R → Host → Text → Request → Daemon K R → Daemon K R
    unfolding begin_call
    process_call on host sender request d = record d {
      call = begin_call on host sender request d.service;
    }

    -- The handler of the call goes on to where it gives up its next lock.
    unfoldable pub continue_call : Backends K R → Daemon K R → Daemon K R
    unfolding advance
    continue_call on d =
        let (stage, service) = advance on d.call d.service in
        record d { service = service; call = stage }

    -- DaemonEventLoop::new, over the managers that it is given
    abbrev fresh_daemon : ServiceState K R → Daemon K R
    fresh_daemon service = record {
      service = service;
      config_due = false;
      sync_thread = starting;
      call = no_call;
      queue = [];
      emitted = [];
      shutdown = false;
    }

    abbrev pub scanned :
        SegwireResult (List Text) × ConfigManager → ServiceState K R → SegwireResult (Daemon K R)
    scanned (ok loaded, m) service = ok (fresh_daemon (record service { config_manager = m }))
    scanned (err e, m) service = err e

    -- The first part of `run`, on a service with fresh managers: the scan, whose error ends the daemon.
    unfoldable pub begin_run :
        FileSystem
        → DaemonConfig
        → Text
        → NamespaceStateManager K
        → R
        → Option Authorities
        → SegwireResult (Daemon K R)
    unfolding scan_namespace_configs
    begin_run fs daemon_config path network real authorizer =
        let m = from_config daemon_config path in
        scanned (scan_namespace_configs fs m) (record {
          config_manager = m;
          state_manager = record network { namespace_states = [] };
          real = real;
          authorizer = authorizer;
        })

    -- One step of the daemon or of the world around it. The main loop dispatches calls one at a time and
    -- takes no event meanwhile; the other threads run between the stages of a call. A thread may have passed its test of the flag
    -- before the flag is set, so that no step waits for it.
    pub data Step (on : Backends K R) : Daemon K R → Daemon K R → Type 0 where
      file_event :
          (fs : FileSystem) (event : ConfigFileEvent) (d : Daemon K R)
          → d.config_due ≡ false
          → Step on d (handle_config_event fs event d)
      config_sync : (d : Daemon K R) → d.config_due ≡ true → Step on d (sync_after_change on d)
      first_sync : (d : Daemon K R) → d.sync_thread ≡ starting → Step on d (initial_sync on d)
      wakes : (d : Daemon K R) → d.sync_thread ≡ sleeping → Step on d (check_sync on d)
      round_sync : (d : Daemon K R) → d.sync_thread ≡ due → Step on d (periodic_sync on d)
      method_call :
          (host : Host) (sender : Text) (request : Request) (d : Daemon K R)
          → d.call ≡ no_call
          → Step on d (process_call on host sender request d)
      call_stage : (d : Daemon K R) → Step on d (continue_call on d)
      drained : (d : Daemon K R) → d.call ≡ no_call → Step on d (drain d)
      interrupted : (d : Daemon K R) → Step on d (request_shutdown d)
      -- other programs change the system
      outside :
          (k : K) (r : R) (d : Daemon K R)
          → Step on d (record d {
            service = record d.service {
              state_manager = record (states d) { netlink_manager = k };
              real = r;
            };
          })

    -- The states that a daemon can come to.
    pub data Reach (on : Backends K R) : Daemon K R → Type 0 where
      begins :
          (fs : FileSystem) (daemon_config : DaemonConfig) (path : Text)
          (network : NamespaceStateManager K) (real : R) (authorizer : Option Authorities)
          (d : Daemon K R)
          → begin_run fs daemon_config path network real authorizer ≡ ok d
          → Reach on d
      steps : {d d' : Daemon K R} → Reach on d → Step on d d' → Reach on d'
