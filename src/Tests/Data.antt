-- ===== src/Tests/Data.antt =====
-- The data of the tests: ASCII digits, a base64 decoder that knows one key, a directory with two
-- files, and a simulated network.
use segwire.Base.{Bool, true, false, none, some, [], ◌∷◌, ok, err, if◌then◌else◌, refl}
use segwire.Text.{Text, lit, is_digit}
use segwire.Text.Equality.{text_eq}
use segwire.Utils.Address.{UnicodeDigits}
use segwire.Config.{DaemonConfig, NamespaceConfig, VirtualInterface, Route}
use segwire.Config.Validate.{Base64}
use segwire.ConfigManager.{FileSystem, NamespaceConfigEntry, ConfigManager}
use segwire.Netlink.{Netlink, v4}
use segwire.Netlink.Simulated.{simulated, SimulatedState, new_simulated}
use segwire.StateManager.{NamespaceStateManager}

instance abbrev pub ascii_digits : UnicodeDigits
ascii_digits = record { decimal_digit = is_digit; decimal_digit-ascii = λ c h. refl }

instance abbrev pub no_base64 : Base64
no_base64 = record { decode = λ key. none }

abbrev pub daemon_config : DaemonConfig
daemon_config = record {
  daemon = record {
    namespace_prefix = lit "sw";
    config_dir = lit "/etc/segwire";
    cleanup_on_shutdown = false;
    logging = record {
      level = lit "info";
      with_timestamps = true;
      with_thread_names = false;
      with_file_line = false;
      with_spans = false;
    };
  };
  dbus = record { service_name = lit "org.segwire"; object_path = lit "/org/segwire" };
}

-- A namespace with one bridge and one route.
abbrev pub bridge : VirtualInterface
bridge = record {
  name = lit "br0";
  interface_type = lit "bridge";
  peer = none;
  addresses = lit "10.0.0.1/24" ∷ [];
}

abbrev pub office_route : Route
office_route = record { destination = lit "10.1.0.0/16"; gateway = lit "10.0.0.2"; metric = some 5 }

abbrev pub namespace_config : Text → NamespaceConfig
namespace_config name = record {
  namespace = record { name = name; description = [] };
  interfaces = record { move_interfaces = lit "eth1" ∷ []; virtual_interfaces = bridge ∷ [] };
  routing = record { default_gateway = none; routes = office_route ∷ [] };
  dns = record { servers = []; search = [] };
  wireguard = none;
  environment = [];
}

-- The file "vpn.toml" holds the namespace "vpn", and everything else is missing.
abbrev vpn_file : Text → Bool
vpn_file path = text_eq path (lit "vpn.toml")

abbrev pub files : FileSystem
files = record {
  exists = λ path. true;
  metadata = λ path. if vpn_file path then ok tt else err (lit "missing");
  modified = λ path. ok 7;
  read_to_string = λ path. if vpn_file path then some [] else none;
  read_dir = λ path. ok (
      ok (record { path = lit "vpn.toml"; file_name = lit "vpn.toml"; is_file = true })
      ∷ ok (record { path = lit "lan.toml"; file_name = lit "lan.toml"; is_file = true })
      ∷ []);
  parse_daemon = λ content. ok daemon_config;
  parse_namespace = λ content. ok (namespace_config (lit "vpn"));
  system_env = λ name. none;
}

abbrev pub entry_of : Text → Text → Text → NamespaceConfigEntry
entry_of path name full_name = record {
  config = namespace_config name;
  file_path = path;
  full_name = full_name;
  last_modified = 7;
}

abbrev pub vpn_entry : NamespaceConfigEntry
vpn_entry = entry_of (lit "vpn.toml") (lit "vpn") (lit "sw-vpn")

abbrev pub empty_manager : ConfigManager
empty_manager = record {
  daemon_config = daemon_config;
  config_file_path = lit "segwire.toml";
  namespace_configs = [];
}

abbrev pub vpn_manager : ConfigManager
vpn_manager = record empty_manager { namespace_configs = (lit "sw-vpn", vpn_entry) ∷ [] }

-- Every address is read as the first of all.
abbrev pub network : Netlink SimulatedState
network = simulated (λ text. ok (v4 0))

abbrev pub fresh_states : NamespaceStateManager SimulatedState
fresh_states = record {
  namespace_states = [];
  netlink_manager = new_simulated 0;
  last_sync = 0;
  sync_interval = 30;
}
