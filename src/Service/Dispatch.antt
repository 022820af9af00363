-- ===== src/Service/Dispatch.antt =====
-- A method call by D-Bus: the checks of its argument and its sender, and what is done behind them.
use segwire.Base.{none, some, ◌++◌, Result, ok, err, ◌>>=◌}
use segwire.Text.{Text, lit}
use segwire.Text.Numbers.{decimal}
use segwire.Map.{lookup}
use segwire.Error.{SegwireResult, error_message}
use segwire.Config.Validate.{Base64}
use segwire.Utils.Address.{UnicodeDigits}
use segwire.Config.{NamespaceConfig}
use segwire.NamespaceState.{as_str}
use segwire.Service.{
  Host, ServiceState, Backends, failure, with_detail, create_method_err, segwire_from,
}
use segwire.Service.Operations.{
  authorize, reload_all_configurations, validate_config_file, delete_namespace_by_name,
  create_namespace_from_config,
}
use segwire.Service.Handlers.{
  Request, Reply, action_of, check_argument, count_active, no_configuration, validate_file,
  list_all, reload_reply, report_status, get_status, authorize_exec, delete_reply, recreate_reply,
  find_config, list_namespaces, reload_configuration, get_daemon_status, get_namespace_status,
  delete_namespace, validate_configuration, restart_namespace, exec_authorize, operation,
}

module _ {K R : Type 0} where
  module _ (on : Backends K R) where
    abbrev pub recreate :
        NamespaceConfig
        → SegwireResult (Unit {0}) × ServiceState K R
        → Result Text Reply × ServiceState K R
    recreate c (ok _, svc) = recreate_reply (create_namespace_from_config on c svc)
    recreate c (err e, svc) =
        (ok (operation (failure (lit "Restart failed during deletion: " ++ error_message e))), svc)

    -- RestartNamespace, behind the authorization
    unfoldable pub restart : Text → ServiceState K R → Result Text Reply × ServiceState K R
    unfolding lit lookup error_message delete_namespace_by_name create_namespace_from_config
    restart name svc = elim (find_config svc name) [
      | none ↦ (ok (no_configuration name), svc)
      | some entry ↦ recreate entry.config (delete_namespace_by_name on name svc)
    ]

    module _ ⦃u : UnicodeDigits⦄ ⦃b : Base64⦄ (host : Host) where
      -- What a handler does once the call is authorized.
      unfoldable pub perform_request :
          Request → ServiceState K R → Result Text Reply × ServiceState K R
      unfolding lit decimal lookup as_str count_active error_message with_detail create_method_err
          segwire_from reload_all_configurations validate_config_file delete_namespace_by_name
          restart authorize_exec
      perform_request list_namespaces svc = (list_all svc, svc)
      perform_request (get_namespace_status name) svc = (get_status svc name, svc)
      perform_request (delete_namespace name) svc =
          delete_reply name (delete_namespace_by_name on name svc)
      perform_request reload_configuration svc = (reload_reply host svc, svc)
      perform_request (validate_configuration path) svc = (validate_file host path, svc)
      perform_request get_daemon_status svc = (report_status host svc, svc)
      perform_request (restart_namespace name) svc = restart name svc
      perform_request (exec_authorize name) svc = (authorize_exec host svc name, svc)

      abbrev pub authorized_call :
          Result Text (Unit {0}) → Request → ServiceState K R → Result Text Reply × ServiceState K R
      authorized_call (ok _) request svc = perform_request request svc
      authorized_call (err e) request svc = (err e, svc)

      -- A method call by `sender`.
      unfoldable pub handle :
          Text → Request → ServiceState K R → Result Text Reply × ServiceState K R
      unfolding action_of check_argument authorize perform_request
      handle sender request svc =
          authorized_call
            (check_argument host request >>= λ _.
              authorize svc.authorizer (action_of request) sender)
            request svc
