-- ===== src/Netlink/Real/Devices.antt =====
-- The operations on links of the real backend, of crates/segwire-daemon/src/netlink.rs.
use segwire.Base.{ℕ, Bool, not, ok, ensure, if◌then◌else◌}
use segwire.Text.{Text, lit}
use segwire.Error.{
  SegwireError, network, from_netlink, netlink_message, interface_not_found,
  interface_not_available, interface_move_failed, virtual_interface_create_failed, socket_error,
}
use segwire.Utils.Names.{validate_namespace_name, validate_interface_name}
use segwire.Config.{WireguardConfig}
use segwire.Netlink.{IpAddr}
use segwire.Host.{Host, Action, ◌>>=◌, ◌>>◌, mapping, in_namespace}
use segwire.Rtnl.Links.{
  get_interface_index_fresh, move_interface_to_ns, move_interface_to_default_ns,
  create_virtual_interface, create_veth_pair, create_wireguard_link, add_address_fresh,
  set_link_up_fresh,
}
use segwire.Netlink.Real.{
  ns_path_of, check, text_any, namespace_there, interface_exists, interface_available,
  list_namespace_interfaces,
}

module _ {K : Type 0} (host : Host K) where
  -- move_interface_to_namespace
  unfoldable pub move_to_namespace : Text → Text → Action K SegwireError (Unit {0})
  unfolding interface_exists interface_available get_interface_index_fresh move_interface_to_ns
      ns_path_of
  move_to_namespace interface_name namespace_name = do
    check (validate_namespace_name namespace_name)
    check (validate_interface_name interface_name)
    there ← interface_exists host interface_name
    check (ensure there (from_netlink (interface_not_found interface_name)))
    available ← interface_available host interface_name
    check (ensure available (from_netlink (interface_not_available interface_name)))
    namespace_there host namespace_name
    ifindex ←
        mapping (λ e. from_netlink (socket_error e)) (get_interface_index_fresh host interface_name)
    mapping (λ e. from_netlink (interface_move_failed interface_name namespace_name e))
        (move_interface_to_ns host ifindex (ns_path_of namespace_name))

  -- The interface is moved if it is in the namespace.
  abbrev move_back : Text → Text → Bool → Action K SegwireError (Unit {0})
  move_back namespace_name interface_name there =
      if there
      then in_namespace host network
          (λ e. from_netlink (interface_move_failed interface_name (lit "default") e))
          (ns_path_of namespace_name) (move_interface_to_default_ns host interface_name)
      else check (ok tt)

  -- move_interface_from_namespace_to_default
  unfoldable pub move_to_default : Text → Text → Action K SegwireError (Unit {0})
  unfolding list_namespace_interfaces in_namespace move_interface_to_default_ns ns_path_of
  move_to_default namespace_name interface_name = do
    check (validate_namespace_name namespace_name)
    check (validate_interface_name interface_name)
    namespace_there host namespace_name
    ns_interfaces ← list_namespace_interfaces host namespace_name
    move_back namespace_name interface_name (text_any interface_name ns_interfaces)

  -- create_virtual_interface
  unfoldable pub create_virtual_real : Text → Text → Text → Action K SegwireError (Unit {0})
  unfolding list_namespace_interfaces in_namespace create_virtual_interface ns_path_of
  create_virtual_real namespace_name vif_name vif_type = do
    check (validate_namespace_name namespace_name)
    check (validate_interface_name vif_name)
    namespace_there host namespace_name
    ns_interfaces ← list_namespace_interfaces host namespace_name
    check (
        ensure (not (text_any vif_name ns_interfaces)) (
          from_netlink (
            virtual_interface_create_failed vif_name
              (lit "Interface already exists in namespace"))))
    in_namespace host network from_netlink (ns_path_of namespace_name)
        (create_virtual_interface host vif_name vif_type)

  -- create_wireguard_interface
  unfoldable pub create_wireguard_real : Text → Text → Action K SegwireError (Unit {0})
  unfolding in_namespace create_wireguard_link ns_path_of
  create_wireguard_real namespace_name wg_name = do
    check (validate_namespace_name namespace_name)
    check (validate_interface_name wg_name)
    namespace_there host namespace_name
    in_namespace host network from_netlink (ns_path_of namespace_name)
        (create_wireguard_link host wg_name)

  -- configure_wireguard
  unfoldable pub configure_wireguard_real :
      Text → Text → WireguardConfig → Action K SegwireError (Unit {0})
  unfolding in_namespace ns_path_of
  configure_wireguard_real namespace_name wg_name config = do
    check (validate_namespace_name namespace_name)
    in_namespace host network network (ns_path_of namespace_name)
        (host.configure_device wg_name config)

  abbrev new_name : Text → Text → Action K SegwireError (Unit {0})
  new_name name message = do
    there ← interface_exists host name
    check (ensure (not there) (from_netlink (virtual_interface_create_failed name message)))

  -- create_veth_pair
  unfoldable pub create_veth_real : Text → Text → Action K SegwireError (Unit {0})
  unfolding interface_exists create_veth_pair
  create_veth_real veth_name peer_name = do
    check (validate_interface_name veth_name)
    check (validate_interface_name peer_name)
    new_name veth_name (lit "Interface already exists")
    new_name peer_name (lit "Peer interface already exists")
    mapping (λ e. from_netlink (virtual_interface_create_failed veth_name (netlink_message e)))
        (create_veth_pair host veth_name peer_name)

  -- add_address_in_namespace
  unfoldable pub add_address_real : Text → Text → IpAddr → ℕ → Action K SegwireError (Unit {0})
  unfolding in_namespace add_address_fresh ns_path_of
  add_address_real namespace_name ifname addr prefix_len = do
    check (validate_namespace_name namespace_name)
    in_namespace host network network (ns_path_of namespace_name)
        (add_address_fresh host ifname addr prefix_len)

  -- set_link_up_in_namespace
  unfoldable pub set_link_up_inside : Text → Text → Action K SegwireError (Unit {0})
  unfolding in_namespace set_link_up_fresh ns_path_of
  set_link_up_inside namespace_name ifname = do
    check (validate_namespace_name namespace_name)
    in_namespace host network network (ns_path_of namespace_name) (set_link_up_fresh host ifname)

  -- set_link_up and add_address, in the namespace of the daemon
  abbrev pub set_link_up_real : Text → Action K SegwireError (Unit {0})
  set_link_up_real ifname = mapping network (set_link_up_fresh host ifname)

  abbrev pub add_address_default : Text → IpAddr → ℕ → Action K SegwireError (Unit {0})
  add_address_default ifname addr prefix_len =
      mapping network (add_address_fresh host ifname addr prefix_len)
