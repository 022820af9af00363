-- ===== src/Tests/Manager.antt =====
-- The configuration manager.
use segwire.Base.{true, false, some, [], ◌∷◌, ok, refl, ◌≡◌, ◌≢◌, is_ok, arith, for_each}
use segwire.Text.{lit, byte_len, contains_char, strip_prefix}
use segwire.Text.Split.{split}
use segwire.Text.Numbers.{parse_uint}
use segwire.Regex.{is_match}
use segwire.Sorting.{sort, dedup, first_repeat}
use segwire.Utils.Names.{validate_namespace_name, validate_interface_name}
use segwire.Utils.Address.{validate_cidr, validate_cidr_parts, validate_ip_address, check_octet}
use segwire.Utils.Substitute.{substitute_env_vars}
use segwire.Config.Substitute.{substitute_environment_variables}
use segwire.ConfigManager.Prefix.{full_namespace_name, matches_prefix}
use segwire.Text.Equality.{text_eq}
use segwire.Map.{lookup}
use segwire.Config.Validate.{
  validate_namespace_config, validate_interfaces, validate_virtual_interface, validate_routing,
  validate_route, validate_dns, virtual_names,
}
use segwire.ConfigManager.{
  ConfigManager, NamespaceConfigEntry, namespace_config_from_file, load_namespace_config,
  scan_namespace_configs, reload_namespace_config, handle_file_event, created, modified,
}
use segwire.ConfigManager.Invariant.{IsConsistent, scan_namespace_configs-IsConsistent}
use segwire.ConfigManager.Events.{handle_file_event-IsConsistent, handle_file_event-error}
use segwire.ConfigManager.Updates.{reload_namespace_config-stale}
use segwire.Tests.Data.{
  ascii_digits, no_base64, files, empty_manager, vpn_manager, vpn_entry, entry_of,
}

pub load-vpn : load_namespace_config files (lit "sw") (lit "vpn.toml") ≡ ok (some vpn_entry)
unfolding load_namespace_config lit text_eq namespace_config_from_file
    substitute_environment_variables substitute_env_vars validate_namespace_config
    validate_namespace_name byte_len is_match validate_interfaces for_each validate_interface_name
    validate_virtual_interface validate_cidr split validate_ip_address check_octet parse_uint
    validate_cidr_parts validate_routing validate_route validate_dns sort dedup first_repeat
    full_namespace_name virtual_names contains_char matches_prefix strip_prefix
load-vpn = refl

scan-ok : is_ok (scan_namespace_configs files empty_manager).0 ≡ true
unfolding scan_namespace_configs lit
scan-ok = refl

scan_namespace_configs-IsConsistent_example :
    IsConsistent (scan_namespace_configs files empty_manager).1
scan_namespace_configs-IsConsistent_example =
    scan_namespace_configs-IsConsistent files empty_manager scan-ok

created-ok : is_ok (handle_file_event files (created (lit "vpn.toml")) empty_manager).0 ≡ true
unfolding handle_file_event lit
created-ok = rw load-vpn refl

handle_file_event-IsConsistent_example :
    IsConsistent (handle_file_event files (created (lit "vpn.toml")) empty_manager).1
handle_file_event-IsConsistent_example =
    handle_file_event-IsConsistent files (created (lit "vpn.toml")) empty_manager tt created-ok

lan-missing : is_ok (handle_file_event files (created (lit "lan.toml")) vpn_manager).0 ≡ false
unfolding handle_file_event lit load_namespace_config text_eq
lan-missing = refl

created-other : created (lit "lan.toml") ≢ modified (lit "segwire.toml")
created-other e = absurd (cc)

handle_file_event-error_example :
    (handle_file_event files (created (lit "lan.toml")) vpn_manager).1 ≡ vpn_manager
handle_file_event-error_example =
    handle_file_event-error files (created (lit "lan.toml")) vpn_manager created-other lan-missing

-- The file was about the namespace "old" before.
abbrev old_entry : NamespaceConfigEntry
old_entry = entry_of (lit "vpn.toml") (lit "old") (lit "sw-old")

abbrev old_manager : ConfigManager
old_manager = record empty_manager { namespace_configs = (lit "sw-old", old_entry) ∷ [] }

old-stored : lookup (lit "sw-old") old_manager.namespace_configs ≡ some old_entry
unfolding lookup lit text_eq
old-stored = refl

old-other : lit "sw-vpn" ≢ lit "sw-old"
unfolding lit
old-other e = absurd (ground arith)

reload_namespace_config-stale_example :
    (lookup
        (lit "sw-old")
        (reload_namespace_config files (lit "vpn.toml") old_manager).1.namespace_configs
      ≡ some old_entry)
    × (lookup
          (lit "sw-vpn")
          (reload_namespace_config files (lit "vpn.toml") old_manager).1.namespace_configs
        ≡ some vpn_entry)
    × (vpn_entry.file_path ≡ old_entry.file_path)
reload_namespace_config-stale_example =
    reload_namespace_config-stale files (lit "vpn.toml") old_manager old_entry vpn_entry old-stored
      refl load-vpn old-other
