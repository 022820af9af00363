-- ===== src/Netlink.antt =====
-- What the daemon asks of the network: the types of crates/segwire-common/src/netlink.rs, and the
-- methods of `NetlinkManager` (crates/segwire-daemon/src/netlink.rs) as an interface over a state `K`,
-- which holds the network and the clock.
pub mod Checks
pub mod Simulated
pub mod Refinement
pub mod Real
use segwire.Base.{ℕ, Option, List, Result}
use segwire.Text.{Text}
use segwire.Map.{Map}
use segwire.Error.{SegwireResult}
use segwire.Base.{Bool}
use segwire.Config.{WireguardConfig}

pub record NamespaceInfo : Type 0 where
  pub name : Text
  pub id : ℕ
  pub path : Text
  pub active : Bool

pub record RouteConfig : Type 0 where
  pub destination : Text
  pub gateway : Text
  pub interface : Option Text
  pub metric : Option ℕ

pub record ResolverConfig : Type 0 where
  pub servers : List Text
  pub search_domains : List Text
  pub options : List Text

-- std::net::IpAddr
pub data IpAddr : Type 0 where
  v4 v6 : ℕ → IpAddr

-- A call that may fail, and the state behind it.
abbrev pub Call : Type 0 → Type 0 → Type 0
Call K A = K → SegwireResult A × K

pub record Netlink (K : Type 0) : Type 0 where
  -- SystemTime::now, in nanoseconds since the Unix epoch
  pub now : K → ℕ × K
  pub list_namespaces : Call K (Map NamespaceInfo)
  pub create_namespace : Text → Call K NamespaceInfo
  pub delete_namespace : Text → Call K (Unit {0})
  pub create_veth_pair : Text → Text → Call K (Unit {0})
  pub move_interface_to_namespace : Text → Text → Call K (Unit {0})
  pub create_wireguard_interface : Text → Text → Call K (Unit {0})
  pub create_virtual_interface : Text → Text → Text → Call K (Unit {0})
  pub configure_wireguard : Text → Text → WireguardConfig → Call K (Unit {0})
  pub add_address_in_namespace : Text → Text → IpAddr → ℕ → Call K (Unit {0})
  pub set_link_up_in_namespace : Text → Text → Call K (Unit {0})
  pub set_link_up : Text → Call K (Unit {0})
  pub add_route_to_namespace : Text → RouteConfig → Call K (Unit {0})
  pub configure_namespace_dns : Text → ResolverConfig → Call K (Unit {0})
  -- IpAddr::from_str; an error is the text that it prints
  pub parse_ip : Text → Result Text IpAddr
