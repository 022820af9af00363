-- ===== src/Error.antt =====
-- crates/segwire-common/src/error.rs and the errors of netlink.rs. The crate's own error values are
-- data; an `io::Error` and a `toml::de::Error` are kept as the text that they print.
use segwire.Base.{Result, Bool, true, false, ◌++◌}
use segwire.Text.{Text, lit}

pub data ConfigError : Type 0 where
  invalid_toml missing_field : Text → ConfigError
  invalid_value : Text → Text → ConfigError
  file_not_found env_substitution : Text → ConfigError

pub data SegwireError : Type 0 where
  config : ConfigError → SegwireError
  network dbus permission system validation : Text → SegwireError

abbrev pub SegwireResult : Type 0 → Type 0
SegwireResult A = Result SegwireError A

pub data NetlinkError : Type 0 where
  namespace_not_found namespace_exists : Text → NetlinkError
  create_failed delete_failed : Text → Text → NetlinkError
  insufficient_privileges : NetlinkError
  invalid_name interface_not_found : Text → NetlinkError
  interface_move_failed : Text → Text → Text → NetlinkError
  virtual_interface_create_failed : Text → Text → NetlinkError
  interface_not_available : Text → NetlinkError
  route_config_failed dns_config_failed : Text → Text → NetlinkError
  invalid_route invalid_dns socket_error protocol_error : Text → NetlinkError

-- Display for NetlinkError
unfoldable pub netlink_message : NetlinkError → Text
netlink_message (namespace_not_found a) = lit "Namespace '" ++ (a ++ lit "' not found")
netlink_message (namespace_exists a) = lit "Namespace '" ++ (a ++ lit "' already exists")
netlink_message (create_failed a b) = lit "Failed to create namespace '" ++ (a ++ (lit "': " ++ b))
netlink_message (delete_failed a b) = lit "Failed to delete namespace '" ++ (a ++ (lit "': " ++ b))
netlink_message insufficient_privileges = lit "Insufficient privileges for namespace operations"
netlink_message (invalid_name a) = lit "Invalid namespace name: " ++ a
netlink_message (interface_not_found a) = lit "Network interface '" ++ (a ++ lit "' not found")
netlink_message (interface_move_failed a b c) =
    lit "Failed to move interface '" ++ (a ++ (lit "' to namespace '" ++ (b ++ (lit "': " ++ c))))
netlink_message (virtual_interface_create_failed a b) =
    lit "Failed to create virtual interface '" ++ (a ++ (lit "': " ++ b))
netlink_message (interface_not_available a) =
    lit "Interface '" ++ (a ++ lit "' is not available for namespace assignment")
netlink_message (route_config_failed a b) =
    lit "Failed to configure route in namespace '" ++ (a ++ (lit "': " ++ b))
netlink_message (dns_config_failed a b) =
    lit "Failed to configure DNS in namespace '" ++ (a ++ (lit "': " ++ b))
netlink_message (invalid_route a) = lit "Invalid route configuration: " ++ a
netlink_message (invalid_dns a) = lit "Invalid DNS configuration: " ++ a
netlink_message (socket_error a) = lit "Netlink socket error: " ++ a
netlink_message (protocol_error a) = lit "Netlink protocol error: " ++ a

-- impl From<NetlinkError> for SegwireError
unfoldable pub from_netlink : NetlinkError → SegwireError
from_netlink e = network (netlink_message e)

-- Display for ConfigError
unfoldable pub config_message : ConfigError → Text
config_message (invalid_toml e) = lit "Invalid TOML syntax: " ++ e
config_message (missing_field f) = lit "Missing required field: " ++ f
config_message (invalid_value f v) = lit "Invalid value for field '" ++ (f ++ (lit "': " ++ v))
config_message (file_not_found p) = lit "Configuration file not found: " ++ p
config_message (env_substitution m) = lit "Environment variable substitution failed: " ++ m

-- Display for SegwireError
unfoldable pub error_message : SegwireError → Text
unfolding config_message
error_message (config e) = lit "Configuration error: " ++ config_message e
error_message (network e) = lit "Network operation failed: " ++ e
error_message (dbus e) = lit "D-Bus error: " ++ e
error_message (permission e) = lit "Permission denied: " ++ e
error_message (system e) = lit "System error: " ++ e
error_message (validation e) = lit "Validation error: " ++ e

-- SegwireError::is_recoverable
unfoldable pub is_recoverable : SegwireError → Bool
is_recoverable (config e) = true
is_recoverable (network e) = true
is_recoverable (permission e) = false
is_recoverable (system e) = false
is_recoverable (dbus e) = true
is_recoverable (validation e) = true

-- SegwireError::category
unfoldable pub category : SegwireError → Text
category (config e) = lit "configuration"
category (network e) = lit "network"
category (dbus e) = lit "dbus"
category (permission e) = lit "permission"
category (system e) = lit "system"
category (validation e) = lit "validation"

-- SegwireError::user_message
unfoldable pub user_message : SegwireError → Text
unfolding config_message
user_message (config e) = lit "Configuration problem: " ++ config_message e
user_message (network e) = lit "Network operation failed: " ++ e
user_message (dbus e) = lit "Communication error with daemon"
user_message (permission e) = lit "Permission denied: " ++ e
user_message (system e) = lit "System error: " ++ e
user_message (validation e) = lit "Validation failed: " ++ e
