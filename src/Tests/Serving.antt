-- ===== src/Tests/Serving.antt =====
-- The D-Bus service on one managed namespace that is active.
use segwire.Base.{none, some, [], ◌∷◌, ok, err, ◌≡◌, ◌⊎◌, refl}
use segwire.Text.{Text, lit, is_alphanumeric, byte_len, strip_prefix}
use segwire.Text.Equality.{text_eq}
use segwire.Map.{lookup, insert, remove}
use segwire.Regex.{is_match}
use segwire.NamespaceState.{NamespaceState, active, new_state}
use segwire.Netlink.Simulated.{SimulatedState, new_simulated, create_simulated, delete_simulated}
use segwire.Utils.Names.{validate_namespace_name}
use segwire.ConfigManager.Prefix.{matches_prefix}
use segwire.Policykit.{Authorities, ProcessInfo, action_mappings, IsGranted}
use segwire.Service.{Host, ServiceState, Backends}
use segwire.Service.Operations.{delete_namespace_by_name}
use segwire.Service.Handlers.{
  authorize_exec, exec_authorize, delete_namespace, ns_path, action_of, check_argument, inactive,
}
use segwire.Service.Dispatch.{handle, restart}
use segwire.Service.Authorization.{
  handle_changes, handle-authorized, IsChange, IsAuthorized, IsAdmitted,
}
use segwire.Service.Execution.{exec_authorize-IsExecutable, IsExecutable}
use segwire.Service.Outcomes.{lookup-delete_namespace_by_name, restart-exec, IsFresh}
use segwire.Tests.Data.{
  ascii_digits, no_base64, network, files, fresh_states, vpn_manager, vpn_entry,
}

abbrev pub host : Host
host = record {
  files = files;
  read_error = λ path. lit "missing";
  char_is_alphanumeric = is_alphanumeric;
  uptime = 60;
  version = lit "0.1.0";
}

abbrev pub backends : Backends SimulatedState SimulatedState
backends = record { managed = network; backend = network; open_backend = λ r. (ok tt, r) }

-- Every sender is root's process 1, and PolicyKit is not there.
abbrev root_only : Authorities
root_only = record {
  sender_process_info = λ sender. ok (record { pid = 1; uid = 0 });
  policykit = λ process action_id. none;
}

abbrev vpn_state : NamespaceState
vpn_state = record (new_state (lit "vpn") (lit "sw-vpn") (lit "vpn.toml") 0) { status = active }

abbrev pub service : ServiceState SimulatedState SimulatedState
service = record {
  config_manager = vpn_manager;
  state_manager = record fresh_states { namespace_states = (lit "sw-vpn", vpn_state) ∷ [] };
  real = (create_simulated (lit "sw-vpn") (new_simulated 0)).1;
  authorizer = some root_only;
}

abbrev pub vpn_path : Text
vpn_path = lit "/run/netns/sw-vpn"

pub vpn-exec :
    (handle backends host (lit ":1.7") (exec_authorize (lit "vpn")) service).0
    ≡ ok (ns_path vpn_path)
unfolding handle matches_prefix
vpn-exec = refl

exec_authorize-IsExecutable_example :
    IsAuthorized backends host (lit ":1.7") (exec_authorize (lit "vpn")) service
    × IsExecutable backends host service (lit "vpn") vpn_path
exec_authorize-IsExecutable_example =
    exec_authorize-IsExecutable backends host (lit ":1.7") service (lit "vpn") vpn_path vpn-exec

handle_changes_example :
    ((handle backends host (lit ":1.7") (delete_namespace (lit "vpn")) service).1 ≡ service)
    ⊎ (IsChange (delete_namespace (lit "vpn"))
        × (check_argument host (delete_namespace (lit "vpn")) ≡ ok tt)
        × IsAdmitted backends host service.authorizer (lit ":1.7") (delete_namespace (lit "vpn")))
handle_changes_example =
    handle_changes backends host (lit ":1.7") (delete_namespace (lit "vpn")) service

handle-authorized_example :
    (action_id : Text) × (process : ProcessInfo) × (lookup
        (action_of (exec_authorize (lit "vpn")))
        action_mappings
      ≡ some action_id)
    × (root_only.sender_process_info (lit ":1.7") ≡ ok process)
    × IsGranted process (root_only.policykit process action_id)
handle-authorized_example =
    handle-authorized backends host root_only (lit ":1.7") (exec_authorize (lit "vpn"))
      (ns_path vpn_path) service refl vpn-exec

lookup-delete_namespace_by_name_example :
    lookup
      (lit "sw-vpn")
      (delete_namespace_by_name backends (lit "vpn") service).1.state_manager.namespace_states
    ≡ none
unfolding lookup delete_namespace_by_name text_eq matches_prefix strip_prefix delete_simulated
    validate_namespace_name byte_len is_match create_simulated insert
lookup-delete_namespace_by_name_example =
    lookup-delete_namespace_by_name backends (lit "vpn") (lit "sw-vpn") service refl

restart-exec_example :
    IsFresh backends
      (lit "sw-vpn")
      (restart backends (lit "vpn") service).1.state_manager.namespace_states
    × (authorize_exec host (restart backends (lit "vpn") service).1 (lit "vpn")
        ≡ err (inactive (lit "vpn")))
unfolding restart lookup text_eq matches_prefix strip_prefix delete_simulated
    validate_namespace_name byte_len is_match create_simulated insert remove
restart-exec_example = restart-exec backends host (lit "vpn") service vpn_entry refl refl refl
