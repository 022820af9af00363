-- ===== src/Service.antt =====
-- The D-Bus service: crates/segwire-daemon/src/dbus_service.rs, and what crates/segwire-common/src/dbus.rs
-- has for it: errors, results and the checks of arguments.
pub mod Operations
pub mod Handlers
pub mod Dispatch
pub mod Authorization
pub mod Execution
pub mod Outcomes
pub mod Keeping
pub mod Stages
use segwire.Base.{
  ℕ, Bool, true, false, not, ◌&&◌, ◌||◌, Option, none, some, List, [], ◌∷◌, ◌++◌, ltb, ◌==◌, all,
  Result, ok, err, ensure, ◌>>=◌, ◌>>◌,
}
use segwire.Text.{Text, lit, is_empty, byte_len, contains_text}
use segwire.Text.Equality.{text_eq}
use segwire.Map.{Map, insert}
use segwire.Error.{
  SegwireError, SegwireResult, config, network, dbus, permission, system, validation,
  config_message,
}
use segwire.Policykit.{Authorities}
use segwire.Netlink.{Netlink}
use segwire.ConfigManager.{ConfigManager, FileSystem}
use segwire.StateManager.{NamespaceStateManager}

pub data DbusError : Type 0 where
  configuration_error network_error permission_denied namespace_not_found : Text → DbusError
  invalid_state system_error internal_error : Text → DbusError

-- DbusError::message
unfoldable pub dbus_message : DbusError → Text
dbus_message (configuration_error m) = m
dbus_message (network_error m) = m
dbus_message (permission_denied m) = m
dbus_message (namespace_not_found m) = m
dbus_message (invalid_state m) = m
dbus_message (system_error m) = m
dbus_message (internal_error m) = m

-- DbusError::error_name
unfoldable pub error_name : DbusError → Text
unfolding lit
error_name (configuration_error m) = lit "org.segwire.Error.Configuration"
error_name (network_error m) = lit "org.segwire.Error.Network"
error_name (permission_denied m) = lit "org.segwire.Error.PermissionDenied"
error_name (namespace_not_found m) = lit "org.segwire.Error.NamespaceNotFound"
error_name (invalid_state m) = lit "org.segwire.Error.InvalidState"
error_name (system_error m) = lit "org.segwire.Error.System"
error_name (internal_error m) = lit "org.segwire.Error.Internal"

-- impl From<SegwireError> for DbusError
unfoldable pub dbus_from : SegwireError → DbusError
unfolding config_message
dbus_from (config e) = configuration_error (config_message e)
dbus_from (network m) = network_error m
dbus_from (permission m) = permission_denied m
dbus_from (system m) = system_error m
dbus_from (dbus m) = internal_error m
dbus_from (validation m) = configuration_error m

-- impl From<DbusError> for SegwireError
unfoldable pub segwire_from : DbusError → SegwireError
segwire_from (configuration_error m) = validation m
segwire_from (network_error m) = network m
segwire_from (permission_denied m) = permission m
segwire_from (namespace_not_found m) = network m
segwire_from (invalid_state m) = validation m
segwire_from (system_error m) = system m
segwire_from (internal_error m) = network m

-- A MethodErr: the message of a failed method.
unfoldable pub create_method_err : SegwireError → Text
unfolding dbus_message dbus_from
create_method_err e = dbus_message (dbus_from e)

pub record OperationResult : Type 0 where
  pub success : Bool
  pub message : Text
  pub details : Map Text

abbrev pub succeeded : Text → OperationResult
succeeded message = record { success = true; message = message; details = [] }

abbrev pub failure : Text → OperationResult
failure message = record { success = false; message = message; details = [] }

unfoldable pub with_detail : Text → Text → OperationResult → OperationResult
unfolding insert
with_detail key value r = record r { details = insert key value r.details }

pub record ValidationResult : Type 0 where
  pub valid : Bool
  pub errors : List Text
  pub warnings : List Text

-- What the operating system, the standard library and the build answer to the handlers.
pub record Host : Type 0 where
  pub files : FileSystem
  -- the error of a file that cannot be read
  pub read_error : Text → Text
  -- char::is_alphanumeric
  pub char_is_alphanumeric : ℕ → Bool
  -- SystemTime::elapsed in whole seconds, 0 where it fails
  pub uptime : ℕ
  -- CARGO_PKG_VERSION
  pub version : Text

-- interface_helpers::validate_namespace_name
unfoldable pub validate_method_name : Host → Text → Result DbusError (Unit {0})
unfolding lit byte_len
validate_method_name host name = do
  ensure (not (is_empty name)) (configuration_error (lit "Namespace name cannot be empty"))
  ensure (not (ltb 255 (byte_len name))) (configuration_error (lit "Namespace name too long"))
  ensure (all (λ c. host.char_is_alphanumeric c || c == b'-' || c == b'_') name)
      (configuration_error (lit "Namespace name contains invalid characters"))

-- str::ends_with with a text
unfoldable pub ends_with : Text → Text → Bool
unfolding text_eq
ends_with suffix [] = is_empty suffix
ends_with suffix (c ∷ s) = text_eq suffix (c ∷ s) || ends_with suffix s

-- interface_helpers::validate_config_path
unfoldable pub validate_config_path : Text → Result DbusError (Unit {0})
unfolding lit ends_with contains_text
validate_config_path path = do
  ensure (not (is_empty path)) (configuration_error (lit "Configuration path cannot be empty"))
  ensure (ends_with (lit ".toml") path)
      (configuration_error (lit "Configuration file must have .toml extension"))
  ensure (not (contains_text (lit "..") path))
      (configuration_error (lit "Path traversal not allowed"))

-- The state behind the handlers: the two managers, the system as `NetlinkManager::new` reaches it (a
-- state of `R`), and the authorizer, if there is one.
pub record ServiceState (K R : Type 0) : Type 0 where
  pub config_manager : ConfigManager
  pub state_manager : NamespaceStateManager K
  pub real : R
  pub authorizer : Option Authorities

-- The network of the state manager, whose clock is the system's, and the real backend.
pub record Backends (K R : Type 0) : Type 0 where
  pub managed : Netlink K
  pub backend : Netlink R
  -- NetlinkManager::new
  pub open_backend : R → SegwireResult (Unit {0}) × R
