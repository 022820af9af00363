-- ===== src/StateManager/Interfaces.antt =====
-- What a namespace is given when it is created: interfaces, addresses, routes, DNS. All of these calls
-- log their errors and go on, so each step gives the state behind it.
use segwire.Base.{
  ℕ, Option, none, some, List, [], ◌∷◌, ok, err, ok_or, map_err, ◌>>=◌, if◌then◌else◌, ◌++◌,
}
use segwire.Text.{Text, lit}
use segwire.Text.Equality.{text_eq}
use segwire.Text.Split.{split_once}
use segwire.Text.Numbers.{parse_uint}
use segwire.Error.{SegwireResult}
use segwire.Config.{VirtualInterface, WireguardConfig, Route, DnsConfig, NamespaceConfig}
use segwire.Config.Validate.{invalid}
use segwire.Netlink.{Netlink, Call, IpAddr}

-- A step for each element in turn.
unfoldable pub each {ℓ} : {A : Type ℓ} {K : Type 0} → (A → K → K) → List A → K → K
each f [] k = k
each f (x ∷ xs) k = each f xs (f x k)

module _ {K : Type 0} (net : Netlink K) where
  -- `if let Err(e) = call { warn } else { step }`
  abbrev if_ok : {A : Type 0} → SegwireResult A × K → (K → K) → K
  if_ok (ok a, k) step = step k
  if_ok (err e, k) step = k

  -- The parts of an address in CIDR notation. Behind an invalid length the source also prints why
  -- it is no `u8`, which is left out.
  unfoldable pub parse_address : Text → SegwireResult (IpAddr × ℕ)
  parse_address addr_cidr = do
    (ip_str, prefix_str) ←
        ok_or (split_once b'/' addr_cidr)
          (invalid (lit "addresses") (lit "missing prefix length in '" ++ (addr_cidr ++ lit "'")))
    addr ←
        map_err
          (λ e. invalid (lit "addresses") (lit "invalid IP '" ++ (ip_str ++ (lit "': " ++ e))))
          (net.parse_ip ip_str)
    prefix_len ←
        ok_or (parse_uint 255 prefix_str)
          (invalid (lit "addresses") (lit "invalid prefix length '" ++ (prefix_str ++ lit "'")))
    ok (addr, prefix_len)

  -- apply_address_in_namespace
  unfoldable pub apply_address_in_namespace : Text → Text → Text → Call K (Unit {0})
  unfolding parse_address
  apply_address_in_namespace ns ifname addr_cidr k = elim (parse_address addr_cidr) [
    | err e ↦ (err e, k)
    | ok (addr, prefix_len) ↦ net.add_address_in_namespace ns ifname addr prefix_len k
  ]

  -- The addresses of an interface, and then its way up.
  abbrev set_up : Text → VirtualInterface → K → K
  set_up ns vif k =
      (net.set_link_up_in_namespace ns vif.name
        (each (λ addr k'. (apply_address_in_namespace ns vif.name addr k').1) vif.addresses k)).1

  abbrev configure_device : Text → Text → Option WireguardConfig → K → K
  configure_device ns ifname none k = k
  configure_device ns ifname (some wg) k = (net.configure_wireguard ns ifname wg k).1

  -- Both ends are made in the host; one is moved, and the other is set up where it is.
  unfoldable pub apply_veth : Text → VirtualInterface → Option Text → K → K
  unfolding apply_address_in_namespace each
  apply_veth ns vif none k = k
  apply_veth ns vif (some peer) k = if_ok (net.create_veth_pair vif.name peer k) (λ k1.
      (net.set_link_up peer
        (if_ok (net.move_interface_to_namespace vif.name ns k1) (set_up ns vif))).1)

  unfoldable pub apply_virtual_interface : Text → Option WireguardConfig → VirtualInterface → K → K
  unfolding apply_veth apply_address_in_namespace each
  apply_virtual_interface ns wireguard vif k =
      if text_eq vif.interface_type (lit "veth")
      then apply_veth ns vif vif.peer k
      else if text_eq vif.interface_type (lit "wireguard")
      then if_ok (net.create_wireguard_interface ns vif.name k)
          (λ k1. configure_device ns vif.name wireguard (set_up ns vif k1))
      else if_ok (net.create_virtual_interface ns vif.name vif.interface_type k) (set_up ns vif)

  abbrev add_route : Text → Route → K → K
  add_route ns route k =
      (net.add_route_to_namespace ns
        (record {
          destination = route.destination;
          gateway = route.gateway;
          interface = none;
          metric = route.metric;
        })
        k).1

  abbrev add_default_route : Text → Option Text → K → K
  add_default_route ns none k = k
  add_default_route ns (some gateway) k =
      (net.add_route_to_namespace ns
        (record { destination = lit "default"; gateway = gateway; interface = none; metric = none })
        k).1

  abbrev apply_dns : Text → DnsConfig → K → K
  apply_dns ns dns k = elim dns.servers [
    | [] ↦ k
    | s ∷ rest ↦
        (net.configure_namespace_dns ns
          (record { servers = dns.servers; search_domains = dns.search; options = [] }) k).1
  ]

  -- The routes, the default gateway, and DNS: what an update applies again.
  unfoldable pub apply_routes_and_dns : Text → NamespaceConfig → K → K
  unfolding each
  apply_routes_and_dns ns c k =
      apply_dns ns c.dns
        (add_default_route ns c.routing.default_gateway (each (add_route ns) c.routing.routes k))

  unfoldable pub apply_config : Text → NamespaceConfig → K → K
  unfolding apply_virtual_interface apply_routes_and_dns each
  apply_config ns c k = apply_routes_and_dns ns c (
      each (λ iface k'. (net.move_interface_to_namespace iface ns k').1)
        c.interfaces.move_interfaces
        (each (apply_virtual_interface ns c.wireguard) c.interfaces.virtual_interfaces k))
