-- ===== src/Rtnl/Links.antt =====
-- The link and address operations of crates/segwire-daemon/src/netlink_raw.rs and the creation of a
-- WireGuard interface (wireguard_raw.rs). Each opens a socket of its own.
use segwire.Base.{ℕ, Bool, true, false, List, [], ◌∷◌, ◌++◌, Result, ok, err, if◌then◌else◌}
use segwire.Text.{Text, lit}
use segwire.Text.Equality.{text_eq}
use segwire.Error.{
  NetlinkError, netlink_message, interface_not_found, protocol_error,
  virtual_interface_create_failed,
}
use segwire.Netlink.{IpAddr}
use segwire.Host.{Host, Action, ◌>>=◌, ◌>>◌, from_result, mapping, open_ns_fd, close_fd, inside}
use segwire.Rtnl.{
  family_for, InfoKind, veth, dummy, bridge, mac_vlan, ip_vlan, wireguard, LinkInfo, kind,
  veth_peer, LinkAttribute, if_name, net_ns_fd, link_info, other_link_attribute, LinkMessage,
  default_link, local, address, AddressMessage, RouteNetlinkMessage, get_link, set_link, new_link,
  get_route, new_route, new_address, RequestFlags, ack, ack_create_excl, dump, Payload,
  inner_message, other_payload,
}

-- The links among the answers.
unfoldable pub links : List Payload → List LinkMessage
links [] = []
links (inner_message (new_link link) ∷ rest) = link ∷ links rest
links (inner_message (get_link link) ∷ rest) = links rest
links (inner_message (set_link link) ∷ rest) = links rest
links (inner_message (get_route route) ∷ rest) = links rest
links (inner_message (new_route route) ∷ rest) = links rest
links (inner_message (new_address addr) ∷ rest) = links rest
links (other_payload ∷ rest) = links rest

unfoldable pub attribute_names : List LinkAttribute → List Text
attribute_names [] = []
attribute_names (if_name name ∷ rest) = name ∷ attribute_names rest
attribute_names (net_ns_fd fd ∷ rest) = attribute_names rest
attribute_names (link_info info ∷ rest) = attribute_names rest
attribute_names (other_link_attribute ∷ rest) = attribute_names rest

unfoldable pub link_names : List LinkMessage → List Text
link_names [] = []
link_names (link ∷ rest) = attribute_names link.attributes ++ link_names rest

unfoldable pub extract_interface_names : List Payload → List Text
unfolding links attribute_names link_names
extract_interface_names responses = link_names (links responses)

unfoldable pub has_name : Text → List LinkAttribute → Bool
unfolding text_eq
has_name name [] = false
has_name name (if_name n ∷ rest) = if text_eq n name then true else has_name name rest
has_name name (net_ns_fd fd ∷ rest) = has_name name rest
has_name name (link_info info ∷ rest) = has_name name rest
has_name name (other_link_attribute ∷ rest) = has_name name rest

-- The index of the first link that has the name.
unfoldable pub find_index : Text → List LinkMessage → Result NetlinkError ℕ
unfolding has_name
find_index name [] = err (interface_not_found name)
find_index name (link ∷ rest) =
    if has_name name link.attributes then ok link.index else find_index name rest

unfoldable pub extract_interface_index : List Payload → Text → Result NetlinkError ℕ
unfolding links find_index
extract_interface_index responses name = find_index name (links responses)

module _ {K : Type 0} (host : Host K) where
  -- A fresh socket, and one request on it.
  abbrev pub fresh_request :
      RequestFlags → RouteNetlinkMessage → Action K NetlinkError (List Payload)
  fresh_request flags msg = do host.open_route; host.request flags msg

  -- A request whose answers are not used.
  abbrev pub send_request : RequestFlags → RouteNetlinkMessage → Action K NetlinkError (Unit {0})
  send_request flags msg = do responses ← fresh_request flags msg; from_result (ok tt)

  abbrev pub as_text : {A : Type 0} → Action K NetlinkError A → Action K Text A
  as_text = mapping netlink_message

  unfoldable pub dump_links : Action K NetlinkError (List Payload)
  dump_links = fresh_request dump (get_link default_link)

  unfoldable pub dump_interface_names_fresh : Action K Text (List Text)
  unfolding dump_links extract_interface_names
  dump_interface_names_fresh = do
    responses ← as_text dump_links
    from_result (ok (extract_interface_names responses))

  unfoldable pub get_interface_index_fresh : Text → Action K Text ℕ
  unfolding dump_links extract_interface_index
  get_interface_index_fresh name = do
    responses ← as_text dump_links
    as_text (from_result (extract_interface_index responses name))

  -- A request that moves a link to the namespace of a descriptor, which is closed behind it. Where the
  -- socket cannot be opened, the descriptor is not closed.
  unfoldable pub set_link_ns : ℕ → ℕ → Action K Text (Unit {0})
  set_link_ns ifindex fd = do
    as_text host.open_route
    result ← inside host (
        as_text (
          host.request ack
            (set_link (record default_link { index = ifindex; attributes = net_ns_fd fd ∷ [] }))))
    close_fd host fd
    responses ← from_result result
    from_result (ok tt)

  unfoldable pub move_interface_to_default_ns : Text → Action K Text (Unit {0})
  unfolding get_interface_index_fresh set_link_ns open_ns_fd lit
  move_interface_to_default_ns interface_name = do
    ifindex ← get_interface_index_fresh interface_name
    default_ns_fd ←
        mapping (λ e. lit "open default ns fd: " ++ e) (open_ns_fd host (lit "/proc/1/ns/net"))
    set_link_ns ifindex default_ns_fd

  unfoldable pub move_interface_to_ns : ℕ → Text → Action K Text (Unit {0})
  unfolding set_link_ns open_ns_fd
  move_interface_to_ns ifindex ns_path = do
    ns_fd ← open_ns_fd host ns_path
    set_link_ns ifindex ns_fd

  -- A new link of a name and a description.
  abbrev pub add_link : Text → List LinkInfo → Action K NetlinkError (Unit {0})
  add_link name info =
      send_request ack_create_excl
        (new_link (record default_link { attributes = if_name name ∷ link_info info ∷ [] }))

  unfoldable pub create_veth_pair : Text → Text → Action K NetlinkError (Unit {0})
  create_veth_pair veth_name peer_name = add_link veth_name (kind veth ∷ veth_peer peer_name ∷ [])

  unfoldable pub kind_of : Text → Result NetlinkError InfoKind
  unfolding lit text_eq
  kind_of kind_str =
      if text_eq kind_str (lit "dummy")
      then ok dummy
      else if text_eq kind_str (lit "bridge")
      then ok bridge
      else if text_eq kind_str (lit "macvlan")
      then ok mac_vlan
      else if text_eq kind_str (lit "ipvlan")
      then ok ip_vlan
      else err (protocol_error (lit "unsupported virtual interface type: " ++ kind_str))

  unfoldable pub create_virtual_interface : Text → Text → Action K NetlinkError (Unit {0})
  unfolding kind_of
  create_virtual_interface name kind_str = do
    link_kind ← from_result (kind_of kind_str)
    add_link name (kind link_kind ∷ [])

  -- create_wireguard_interface of wireguard_raw.rs
  unfoldable pub create_wireguard_link : Text → Action K NetlinkError (Unit {0})
  create_wireguard_link name =
      mapping (λ e. virtual_interface_create_failed name (netlink_message e))
        (add_link name (kind wireguard ∷ []))

  unfoldable pub add_address_fresh : Text → IpAddr → ℕ → Action K Text (Unit {0})
  unfolding get_interface_index_fresh
  add_address_fresh ifname addr prefix_len = do
    ifindex ← get_interface_index_fresh ifname
    let msg : AddressMessage = record {
      family = family_for addr;
      prefix_len = prefix_len;
      index = ifindex;
      attributes = local addr ∷ address addr ∷ [];
    }
    as_text (send_request ack_create_excl (new_address msg))

  unfoldable pub set_link_up_fresh : Text → Action K Text (Unit {0})
  unfolding get_interface_index_fresh
  set_link_up_fresh ifname = do
    ifindex ← get_interface_index_fresh ifname
    as_text (
        send_request ack
          (set_link (record default_link { index = ifindex; is_up = true; changes_up = true })))
