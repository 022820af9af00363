-- ===== src/Service/Stages.antt =====
-- A call of dbus_service.rs cut where it gives up the lock of a manager: between two stages the daemon's
-- other threads run. The one lock that the handlers hold throughout is that of the service, so that there is
-- one call at a time.
pub mod Whole
pub mod Keeping
use segwire.Base.{
  Bool, true, false, not, ◌&&◌, Option, none, some, Result, ok, err, ◌≡◌, if◌then◌else◌, Bool-cases,
  Option-cases, inl, inr, refl,
}
use segwire.Text.{Text}
use segwire.Map.{lookup, contains_key}
use segwire.Error.{SegwireResult}
use segwire.Config.{NamespaceConfig}
use segwire.Config.Validate.{Base64}
use segwire.Utils.Address.{UnicodeDigits}
use segwire.ConfigManager.{NamespaceConfigEntry}
use segwire.ConfigManager.Prefix.{full_namespace_name}
use segwire.NamespaceState.{new_state}
use segwire.StateManager.{update_namespace_state, remove_namespace_state}
use segwire.Service.{Host, ServiceState, Backends}
use segwire.Service.Operations.{full_name_of, forget, with_backend, store_at, path_of}
use segwire.Service.Handlers.{
  Request, list_namespaces, reload_configuration, get_daemon_status, get_namespace_status,
  delete_namespace, validate_configuration, restart_namespace, exec_authorize, find_config,
}
use segwire.Service.Authorization.{checks}

-- What a call is about to do, with what it has read: a deletion, and the creation behind it where the call
-- is a restart. A call that only reads has nothing to do to the state.
pub data CallStage : Type 0 where
  no_call : CallStage
  -- a restart looks for the configuration
  searching : Text → CallStage
  -- delete_namespace_by_name: the full name, the test, the system, and the states
  resolving : Text → Option NamespaceConfig → CallStage
  looking deleting forgetting : Text → Text → Option NamespaceConfig → CallStage
  -- create_namespace_from_config: the full name, the system, the path of the configuration, and the state
  naming : NamespaceConfig → CallStage
  making locating : NamespaceConfig → Text → CallStage
  storing : NamespaceConfig → Text → Text → CallStage

abbrev pub first_stage : Request → CallStage
first_stage list_namespaces = no_call
first_stage reload_configuration = no_call
first_stage get_daemon_status = no_call
first_stage (get_namespace_status name) = no_call
first_stage (delete_namespace name) = resolving name none
first_stage (validate_configuration path) = no_call
first_stage (restart_namespace name) = searching name
first_stage (exec_authorize name) = no_call

abbrev pub checked_stage : Request → Result Text (Unit {0}) → CallStage
checked_stage request (ok _) = first_stage request
checked_stage request (err e) = no_call

-- Behind the states that a deletion forgets: a restart goes on.
abbrev pub next_stage : Option NamespaceConfig → CallStage
next_stage none = no_call
next_stage (some c) = naming c

module _ {K R : Type 0} where
  abbrev pub search_done :
      Text → ServiceState K R → Option NamespaceConfigEntry → CallStage × ServiceState K R
  search_done name svc none = (no_call, svc)
  search_done name svc (some entry) = (resolving name (some entry.config), svc)

  -- To the next stage where the system did what was asked of it.
  abbrev pub on_success :
      {A : Type 0} → CallStage → SegwireResult A × ServiceState K R → CallStage × ServiceState K R
  on_success stage (ok _, svc) = (stage, svc)
  on_success stage (err e, svc) = (no_call, svc)

  abbrev pub is_unknown : Text → Text → ServiceState K R → Bool
  is_unknown name full_name svc =
      let states = svc.state_manager.namespace_states in
      not (contains_key name states) && not (contains_key full_name states)

  module _ (on : Backends K R) where
    -- One stage.
    unfoldable pub advance : CallStage → ServiceState K R → CallStage × ServiceState K R
    unfolding lookup full_namespace_name new_state update_namespace_state remove_namespace_state
    advance no_call svc = (no_call, svc)
    advance (searching name) svc = search_done name svc (find_config svc name)
    advance (resolving name next) svc = (looking name (full_name_of svc name) next, svc)
    advance (looking name full_name next) svc =
        (if is_unknown name full_name svc then no_call else deleting name full_name next, svc)
    advance (deleting name full_name next) svc =
        on_success (forgetting name full_name next)
          (with_backend on (on.backend.delete_namespace full_name) svc)
    advance (forgetting name full_name next) svc = (next_stage next, forget name full_name svc)
    advance (naming c) svc = (making c (full_name_of svc c.namespace.name), svc)
    advance (making c full_name) svc =
        on_success (locating c full_name)
          (with_backend on (on.backend.create_namespace full_name) svc)
    advance (locating c full_name) svc =
        let entry = lookup full_name svc.config_manager.namespace_configs in
        (storing c full_name (path_of entry), svc)
    advance (storing c full_name path) svc =
        (no_call, store_at on c.namespace.name full_name path svc)

    module _ ⦃u : UnicodeDigits⦄ ⦃b : Base64⦄ (host : Host) where
      -- A call comes: its argument and its sender are checked.
      unfoldable pub begin_call : Text → Request → ServiceState K R → CallStage
      begin_call sender request svc = checked_stage request (checks on host sender request svc)
