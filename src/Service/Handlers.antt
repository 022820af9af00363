-- ===== src/Service/Handlers.antt =====
-- The handlers of the D-Bus methods, in DbusService::new of dbus_service.rs: a call, its reply or the
-- message of its error, and the state behind it.
use segwire.Base.{
  ℕ, ◌+◌, ◌%◌, ◌^◌, Option, none, some, List, [], ◌∷◌, ◌++◌, map, length, Result, ok, err, map_err,
  ◌==◌, if◌then◌else◌,
}
use segwire.Text.{Text, lit}
use segwire.Text.Numbers.{decimal}
use segwire.Map.{Map, lookup}
use segwire.Error.{SegwireResult, network, error_message}
use segwire.Config.Validate.{Base64}
use segwire.Utils.Address.{UnicodeDigits}
use segwire.ConfigManager.{NamespaceConfigEntry, namespace_prefix}
use segwire.NamespaceState.{NamespaceState, as_str, is_active}
use segwire.Service.{
  Host, ServiceState, DbusError, namespace_not_found, OperationResult, succeeded, failure,
  with_detail, ValidationResult, create_method_err, segwire_from, validate_method_name,
  validate_config_path,
}
use segwire.Service.Operations.{reload_all_configurations, validate_config_file, full_name_of}

pub data Request : Type 0 where
  list_namespaces reload_configuration get_daemon_status : Request
  get_namespace_status delete_namespace validate_configuration : Text → Request
  restart_namespace exec_authorize : Text → Request

pub record NamespaceStatusReply : Type 0 where
  pub name : Text
  pub full_name : Text
  pub status : Text
  pub config_path : Text
  pub created_at : ℕ
  pub last_updated : ℕ

pub data Reply : Type 0 where
  namespaces : List (Text × Text × Text × Text) → Reply
  namespace_status : NamespaceStatusReply → Reply
  operation : OperationResult → Reply
  validation_reply : ValidationResult → Reply
  -- version, uptime, managed_count, active_count
  daemon_status : Text → ℕ → ℕ → ℕ → Reply
  ns_path : Text → Reply

-- The action that a call is authorized by.
unfoldable pub action_of : Request → Text
unfolding lit
action_of list_namespaces = lit "list"
action_of (get_namespace_status name) = lit "status"
action_of (delete_namespace name) = lit "delete"
action_of reload_configuration = lit "reload"
action_of (validate_configuration path) = lit "validate"
action_of get_daemon_status = lit "status"
action_of (restart_namespace name) = lit "restart"
action_of (exec_authorize name) = lit "exec"

abbrev pub invalid_argument : DbusError → Text
invalid_argument e = create_method_err (segwire_from e)

-- The check of the argument, before the state is taken.
unfoldable pub check_argument : Host → Request → Result Text (Unit {0})
unfolding validate_method_name validate_config_path create_method_err segwire_from
check_argument host list_namespaces = ok tt
check_argument host reload_configuration = ok tt
check_argument host get_daemon_status = ok tt
check_argument host (get_namespace_status name) =
    map_err invalid_argument (validate_method_name host name)
check_argument host (delete_namespace name) =
    map_err invalid_argument (validate_method_name host name)
check_argument host (validate_configuration path) =
    map_err invalid_argument (validate_config_path path)
check_argument host (restart_namespace name) =
    map_err invalid_argument (validate_method_name host name)
check_argument host (exec_authorize name) =
    map_err invalid_argument (validate_method_name host name)

-- `or_else`
abbrev pub or_else : {A : Type 0} → Option A → Option A → Option A
or_else none other = other
or_else (some a) other = some a

abbrev pub missing_namespace : Text → Text
missing_namespace name =
    invalid_argument (namespace_not_found (lit "Namespace '" ++ (name ++ lit "' not found")))

abbrev pub state_row : Text → Text × NamespaceState → Text × Text × Text × Text
state_row prefix (key, s) =
    (s.name, as_str s.status, s.config_path, lit "Namespace managed by " ++ prefix)

abbrev pub status_reply : NamespaceState → Reply
status_reply s = namespace_status (record {
  name = s.name;
  full_name = s.full_name;
  status = as_str s.status;
  config_path = s.config_path;
  created_at = s.created_at;
  last_updated = s.last_updated;
})

-- NamespaceStateManager::get_state_stats, the number of active namespaces
unfoldable pub count_active : Map NamespaceState → ℕ
unfolding is_active
count_active [] = 0
count_active ((key, s) ∷ rest) =
    let later = count_active rest in if is_active s then 1 + later else later

abbrev pub reload_message : ℕ → ℕ → Text
reload_message loaded errors =
    if errors == 0
    then lit "Successfully reloaded " ++ (decimal loaded ++ lit " configurations")
    else lit "Reloaded "
      ++ (decimal loaded ++ (lit " configurations with " ++ (decimal errors ++ lit " errors")))

abbrev pub reload_result : SegwireResult (ℕ × ℕ) → OperationResult
reload_result (ok (loaded, errors)) =
    with_detail (lit "error_count") (decimal errors)
      (with_detail (lit "loaded_count") (decimal loaded) (succeeded (reload_message loaded errors)))
reload_result (err e) = failure (lit "Configuration reload failed: " ++ error_message e)

abbrev pub inactive : Text → Text
inactive name = create_method_err (network (lit "Namespace '" ++ (name ++ lit "' is not active")))

abbrev pub netns_path : Text → Text
netns_path full_name = lit "/run/netns/" ++ full_name

abbrev pub path_missing : Text → Text
path_missing path =
    create_method_err (network (lit "Namespace path '" ++ (path ++ lit "' not found")))

abbrev pub granted_path : Host → Text → Result Text Reply
granted_path host path =
    if host.files.exists path then ok (ns_path path) else err (path_missing path)

abbrev pub no_configuration : Text → Reply
no_configuration name =
    operation
      (failure (lit "No configuration found for namespace '" ++ (name ++ lit "', cannot restart")))

unfoldable pub exec_reply : Host → Text → Text → Option NamespaceState → Result Text Reply
unfolding lit is_active create_method_err segwire_from
exec_reply host full_name name none = err (missing_namespace name)
exec_reply host full_name name (some s) =
    if is_active s then granted_path host (netns_path full_name) else err (inactive name)

abbrev pub validate_file : ⦃u : UnicodeDigits⦄ → ⦃b : Base64⦄ → Host → Text → Result Text Reply
validate_file host path = ok (validation_reply (validate_config_file host path))

module _ {K R : Type 0} where
  -- The state of a namespace by its full name, or by the name that was given.
  abbrev pub find_state : ServiceState K R → Text → Option NamespaceState
  find_state svc name =
      let states = svc.state_manager.namespace_states in
      or_else (lookup (full_name_of svc name) states) (lookup name states)

  abbrev pub list_all : ServiceState K R → Result Text Reply
  list_all svc = ok (
      namespaces
        (map (state_row (namespace_prefix svc.config_manager)) svc.state_manager.namespace_states))

  abbrev pub reload_reply : Host → ServiceState K R → Result Text Reply
  reload_reply host svc =
      ok (operation (reload_result (reload_all_configurations host svc.config_manager)))

  -- GetDaemonStatus; the counts are taken `as u32`.
  abbrev pub report_status : Host → ServiceState K R → Result Text Reply
  report_status host svc = ok (
      daemon_status host.version host.uptime (length svc.config_manager.namespace_configs % 2 ^ 32)
        (count_active svc.state_manager.namespace_states % 2 ^ 32))

  abbrev pub get_status : ServiceState K R → Text → Result Text Reply
  get_status svc name = elim (find_state svc name) [
    | none ↦ err (missing_namespace name)
    | some s ↦ ok (status_reply s)
  ]

  -- ExecAuthorize, behind the authorization
  unfoldable pub authorize_exec : Host → ServiceState K R → Text → Result Text Reply
  unfolding lookup exec_reply
  authorize_exec host svc name = exec_reply host (full_name_of svc name) name (find_state svc name)

  abbrev pub delete_reply :
      Text → SegwireResult (Unit {0}) × ServiceState K R → Result Text Reply × ServiceState K R
  delete_reply name (ok _, svc) = (
    ok (
        operation (
          with_detail (lit "namespace") name
            (succeeded (lit "Namespace '" ++ (name ++ lit "' deleted successfully"))))),
    svc,
  )
  delete_reply name (err e, svc) =
      (ok (operation (failure (lit "Failed to delete namespace: " ++ error_message e))), svc)

  abbrev pub recreate_reply :
      SegwireResult Text × ServiceState K R → Result Text Reply × ServiceState K R
  recreate_reply (ok full_name, svc) = (
    ok (operation (succeeded (lit "Namespace '" ++ (full_name ++ lit "' restarted successfully")))),
    svc,
  )
  recreate_reply (err e, svc) =
      (ok (operation (failure (lit "Restart failed during recreation: " ++ error_message e))), svc)

  abbrev pub find_config : ServiceState K R → Text → Option NamespaceConfigEntry
  find_config svc name =
      let configs = svc.config_manager.namespace_configs in
      or_else (lookup (full_name_of svc name) configs) (lookup name configs)
