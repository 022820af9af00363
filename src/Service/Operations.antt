-- ===== src/Service/Operations.antt =====
-- The free functions that the handlers of dbus_service.rs share.
use segwire.Base.{
  ℕ, suc, Bool, true, false, not, ◌&&◌, Option, none, some, List, [], ◌∷◌, ◌++◌, Result, ok, err,
  ensure, map_err, ◌>>=◌, ◌>>◌, if◌then◌else◌,
}
use segwire.Text.{Text, lit}
use segwire.Map.{lookup, contains_key}
use segwire.Error.{
  SegwireError, SegwireResult, config, network, system, invalid_toml, error_message,
}
use segwire.Sorting.{sort}
use segwire.Config.{NamespaceConfig}
use segwire.Config.Validate.{Base64, validate_namespace_config}
use segwire.Utils.Address.{UnicodeDigits}
use segwire.ConfigManager.{
  ConfigManager, DirEntry, NamespaceConfigEntry, namespace_prefix, config_directory, is_toml,
}
use segwire.ConfigManager.Prefix.{full_namespace_name}
use segwire.NamespaceState.{new_state}
use segwire.StateManager.{update_namespace_state, remove_namespace_state}
use segwire.Policykit.{Authorities, check_authorization}
use segwire.Service.{Host, ServiceState, Backends, ValidationResult, create_method_err}

-- The free function check_authorization; without an authorizer everybody may call.
unfoldable pub authorize : Option Authorities → Text → Text → Result Text (Unit {0})
unfolding check_authorization create_method_err
authorize none action sender = ok tt
authorize (some a) action sender = map_err create_method_err (check_authorization a action sender)

-- The free function load_namespace_config.
unfoldable pub read_config : Host → Text → SegwireResult NamespaceConfig
read_config host path = elim (host.files.read_to_string path) [
  | none ↦ err (system (host.read_error path))
  | some content ↦ map_err (λ e. config (invalid_toml e)) (host.files.parse_namespace content)
]

abbrev is_config_file : DirEntry → Bool
is_config_file entry = entry.is_file && is_toml entry

unfoldable pub collect_files : List (Result Text DirEntry) → List Text → SegwireResult (List Text)
collect_files [] found = ok found
collect_files (err e ∷ entries) found = err (system e)
collect_files (ok entry ∷ entries) found =
    collect_files entries (if is_config_file entry then found ++ entry.path ∷ [] else found)

unfoldable pub scan_config_directory : Host → Text → SegwireResult (List Text)
unfolding lit collect_files sort
scan_config_directory host dir = do
  ensure (host.files.exists dir) (system (lit "Configuration directory not found: " ++ dir))
  entries ← map_err system (host.files.read_dir dir)
  found ← collect_files entries []
  ok (sort found)

-- Which files of a list can be read and parsed, and how many cannot.
unfoldable pub count_loaded : Host → List Text → ℕ × ℕ
unfolding read_config
count_loaded host [] = (0, 0)
count_loaded host (file ∷ files) =
    let (loaded, errors) = count_loaded host files in
    elim (read_config host file) [ ok c ↦ (suc loaded, errors) | err e ↦ (loaded, suc errors) ]

unfoldable pub reload_all_configurations : Host → ConfigManager → SegwireResult (ℕ × ℕ)
unfolding scan_config_directory count_loaded
reload_all_configurations host m = do
  files ← scan_config_directory host (config_directory m)
  ok (count_loaded host files)

abbrev no_interfaces : NamespaceConfig → List Text
no_interfaces c =
    if (elim c.interfaces.move_interfaces [ [] ↦ true | _ ∷ _ ↦ false ])
      && (elim c.interfaces.virtual_interfaces [ [] ↦ true | _ ∷ _ ↦ false ])
    then lit "No interfaces specified for namespace" ∷ []
    else []

abbrev no_servers : NamespaceConfig → List Text
no_servers c = elim c.dns.servers [ [] ↦ lit "No DNS servers specified" ∷ [] | _ ∷ _ ↦ [] ]

abbrev invalid_result : Text → ValidationResult
invalid_result message = record { valid = false; errors = message ∷ []; warnings = [] }

abbrev checked_result : List Text → NamespaceConfig → ValidationResult
checked_result errors c = record {
  valid = elim errors [ [] ↦ true | _ ∷ _ ↦ false ];
  errors = errors;
  warnings = no_interfaces c ++ no_servers c;
}

module _ ⦃u : UnicodeDigits⦄ ⦃b : Base64⦄ where
  abbrev validation_errors : NamespaceConfig → List Text
  validation_errors c = elim (validate_namespace_config c) [
    | ok valid ↦ []
    | err e ↦ error_message e ∷ []
  ]

  abbrev validated : SegwireResult NamespaceConfig → ValidationResult
  validated (ok c) = checked_result (validation_errors c) c
  validated (err e) = invalid_result (lit "Configuration parsing failed: " ++ error_message e)

  -- validate_config_file, which never fails
  unfoldable pub validate_config_file : Host → Text → ValidationResult
  unfolding read_config lit error_message
  validate_config_file host path =
      if host.files.exists path
      then validated (read_config host path)
      else invalid_result (lit "Configuration file does not exist: " ++ path)

abbrev pub path_of : Option NamespaceConfigEntry → Text
path_of none = []
path_of (some entry) = entry.file_path

abbrev pub not_found : Text → SegwireError
not_found name = network (lit "Namespace '" ++ (name ++ lit "' not found"))

module _ {K R : Type 0} where
  abbrev pub full_name_of : ServiceState K R → Text → Text
  full_name_of svc name = full_namespace_name (namespace_prefix svc.config_manager) name

  abbrev pub forget : Text → Text → ServiceState K R → ServiceState K R
  forget name full_name svc = record svc {
    state_manager =
        remove_namespace_state full_name (remove_namespace_state name svc.state_manager);
  }

  abbrev pub after_delete :
      Text
      → Text
      → SegwireResult (Unit {0}) × ServiceState K R
      → SegwireResult (Unit {0}) × ServiceState K R
  after_delete name full_name (ok _, svc) = (ok tt, forget name full_name svc)
  after_delete name full_name (err e, svc) = (err e, svc)

  abbrev pub opened_call :
      {A : Type 0}
      → (R → SegwireResult A × R)
      → ServiceState K R
      → SegwireResult (Unit {0}) × R
      → SegwireResult A × ServiceState K R
  opened_call call svc (err e, r) = (err e, record svc { real = r })
  opened_call call svc (ok _, r) = let (result, r') = call r in (result, record svc { real = r' })

module _ {K R : Type 0} (on : Backends K R) where
  -- A call of the real backend behind `NetlinkManager::new`.
  abbrev pub with_backend :
      {A : Type 0}
      → (R → SegwireResult A × R)
      → ServiceState K R
      → SegwireResult A × ServiceState K R
  with_backend call svc = opened_call call svc (on.open_backend svc.real)

  unfoldable pub delete_namespace_by_name :
      Text → ServiceState K R → SegwireResult (Unit {0}) × ServiceState K R
  unfolding lit full_namespace_name remove_namespace_state
  delete_namespace_by_name name svc =
      let full_name = full_name_of svc name in
      let states = svc.state_manager.namespace_states in
      if not (contains_key name states) && not (contains_key full_name states)
      then (err (not_found name), svc)
      else after_delete name full_name (with_backend (on.backend.delete_namespace full_name) svc)

  -- The state that is stored behind a creation, with the path of its configuration.
  abbrev pub store_at : Text → Text → Text → ServiceState K R → ServiceState K R
  store_at name full_name path svc =
      let (now, k) = on.managed.now svc.state_manager.netlink_manager in
      record svc {
        state_manager =
            update_namespace_state (new_state name full_name path now)
              (record svc.state_manager { netlink_manager = k });
      }

  abbrev pub store_created : Text → Text → ServiceState K R → ServiceState K R
  store_created name full_name svc =
      store_at name full_name (path_of (lookup full_name svc.config_manager.namespace_configs)) svc

  abbrev pub after_create_backend :
      {A : Type 0}
      → Text
      → Text
      → SegwireResult A × ServiceState K R
      → SegwireResult Text × ServiceState K R
  after_create_backend name full_name (ok _, svc) = (ok full_name, store_created name full_name svc)
  after_create_backend name full_name (err e, svc) = (err e, svc)

  unfoldable pub create_namespace_from_config :
      NamespaceConfig → ServiceState K R → SegwireResult Text × ServiceState K R
  unfolding full_namespace_name new_state update_namespace_state lookup
  create_namespace_from_config c svc =
      let full_name = full_name_of svc c.namespace.name in
      after_create_backend c.namespace.name full_name
        (with_backend (on.backend.create_namespace full_name) svc)
