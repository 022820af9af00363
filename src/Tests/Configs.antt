-- ===== src/Tests/Configs.antt =====
-- The checks of a configuration, and the name of one that is loaded.
use segwire.Base.{◌≤◌, true, [], ◌∷◌, ◌++◌, ◌≡◌, ◌↔◌, arith, All, length, ok}
use segwire.Text.{lit}
use segwire.Sorting.Duplicates.{all_distinct}
use segwire.Utils.Names.{validate_namespace_name}
use segwire.Config.{InterfaceConfig, RoutingConfig, DnsConfig}
use segwire.Config.Validate.{validate_interfaces, virtual_names}
use segwire.Config.Laws.{IsInterfaceName, IsVirtualInterface, validate_interfaces_iff}
use segwire.ConfigManager.Names.{load_namespace_config-full_name}
use segwire.Tests.Data.{ascii_digits, no_base64, files, namespace_config, vpn_entry}
use segwire.Tests.Names.{sw-IsName}
use segwire.Tests.Manager.{load-vpn}

abbrev moved : InterfaceConfig
moved = (namespace_config []).interfaces

abbrev routing : RoutingConfig
routing = (namespace_config []).routing

abbrev resolver : DnsConfig
resolver = record { servers = lit "1.1.1.1" ∷ []; search = lit "lan" ∷ [] }

validate_interfaces_iff-example : (validate_interfaces moved ≡ ok tt) ↔ (
    All IsInterfaceName moved.move_interfaces
    × All IsVirtualInterface moved.virtual_interfaces
    × (all_distinct (moved.move_interfaces ++ virtual_names moved.virtual_interfaces) ≡ true))
validate_interfaces_iff-example = validate_interfaces_iff moved

vpn-short : length vpn_entry.full_name ≤ 63
unfolding lit
vpn-short = omega arith

load_namespace_config-full_name_example : validate_namespace_name (lit "sw-vpn") ≡ ok tt
load_namespace_config-full_name_example =
    load_namespace_config-full_name files (lit "sw") (lit "vpn.toml") vpn_entry sw-IsName load-vpn
      vpn-short
