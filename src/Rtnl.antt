-- ===== src/Rtnl.antt =====
-- The messages of route netlink that crates/segwire-daemon/src/netlink_raw.rs makes and reads. The types
-- are those of the crate `netlink-packet-route`, with the parts that the source names; the numbers of the
-- header of a route are those of the kernel.
pub mod Links
pub mod Calls
pub mod Laws
pub mod Routes
use segwire.Base.{ℕ, Bool, false, Option, List, []}
use segwire.Text.{Text}
use segwire.Netlink.{IpAddr, v4, v6}

pub data AddressFamily : Type 0 where
  unspec inet inet6 : AddressFamily

abbrev pub family_for : IpAddr → AddressFamily
family_for (v4 n) = inet
family_for (v6 n) = inet6

pub data InfoKind : Type 0 where
  veth dummy bridge mac_vlan ip_vlan wireguard : InfoKind

-- The message of a peer has a name alone.
pub data LinkInfo : Type 0 where
  kind : InfoKind → LinkInfo
  veth_peer : Text → LinkInfo

pub data LinkAttribute : Type 0 where
  if_name : Text → LinkAttribute
  net_ns_fd : ℕ → LinkAttribute
  link_info : List LinkInfo → LinkAttribute
  other_link_attribute : LinkAttribute

-- `is_up` and `changes_up`: LinkFlags::Up in `flags` and in `change_mask`.
pub record LinkMessage : Type 0 where
  pub index : ℕ
  pub is_up : Bool
  pub changes_up : Bool
  pub attributes : List LinkAttribute

abbrev pub default_link : LinkMessage
default_link = record { index = 0; is_up = false; changes_up = false; attributes = [] }

pub data RouteAddress : Type 0 where
  ip_address : IpAddr → RouteAddress
  other_address : RouteAddress

pub data RouteAttribute : Type 0 where
  destination gateway : RouteAddress → RouteAttribute
  priority oif : ℕ → RouteAttribute
  other_route_attribute : RouteAttribute

pub record RouteMessage : Type 0 where
  pub address_family : AddressFamily
  pub destination_prefix_length : ℕ
  pub table : ℕ
  pub protocol : ℕ
  pub scope : ℕ
  pub route_type : ℕ
  pub attributes : List RouteAttribute

abbrev pub default_route_message : RouteMessage
default_route_message = record {
  address_family = unspec;
  destination_prefix_length = 0;
  table = 0;
  protocol = 0;
  scope = 0;
  route_type = 0;
  attributes = [];
}

pub data AddressAttribute : Type 0 where
  local address : IpAddr → AddressAttribute

pub record AddressMessage : Type 0 where
  pub family : AddressFamily
  pub prefix_len : ℕ
  pub index : ℕ
  pub attributes : List AddressAttribute

pub data RouteNetlinkMessage : Type 0 where
  get_link set_link new_link : LinkMessage → RouteNetlinkMessage
  get_route new_route : RouteMessage → RouteNetlinkMessage
  new_address : AddressMessage → RouteNetlinkMessage

-- The flags of a request: NLM_F_ACK; with NLM_F_CREATE and NLM_F_EXCL; NLM_F_DUMP.
pub data RequestFlags : Type 0 where
  ack ack_create_excl dump : RequestFlags

-- The payload of an answer.
pub data Payload : Type 0 where
  inner_message : RouteNetlinkMessage → Payload
  other_payload : Payload
