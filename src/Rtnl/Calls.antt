-- ===== src/Rtnl/Calls.antt =====
-- The calls that add and list routes, of crates/segwire-daemon/src/netlink_raw.rs.
use segwire.Base.{Option, none, some, List, ◌++◌, ok, map}
use segwire.Text.{Text}
use segwire.Host.{Host, Action, ◌>>=◌, from_result}
use segwire.Rtnl.{
  AddressFamily, inet, inet6, oif, RouteMessage, default_route_message, get_route, new_route,
  ack_create_excl, dump,
}
use segwire.Rtnl.Links.{send_request, as_text, get_interface_index_fresh}
use segwire.Rtnl.Routes.{Parsing, RawRouteParams, build_route, add_attribute, routes, format_route}

module _ (std : Parsing) {K : Type 0} (host : Host K) where
  abbrev pub with_interface : Option Text → RouteMessage → Action K Text RouteMessage
  with_interface none msg = from_result (ok msg)
  with_interface (some iface) msg = do
    ifindex ← get_interface_index_fresh host iface
    from_result (ok (add_attribute (oif ifindex) msg))

  -- The message that add_route_fresh makes.
  unfoldable pub route_message : RawRouteParams → Action K Text RouteMessage
  unfolding get_interface_index_fresh build_route
  route_message params = do
    built ← from_result (build_route std params)
    with_interface params.interface built

  unfoldable pub add_route_fresh : RawRouteParams → Action K Text (Unit {0})
  unfolding route_message
  add_route_fresh params = do
    msg ← route_message params
    as_text host (send_request host ack_create_excl (new_route msg))

  -- One dump for each family, on one socket.
  abbrev dump_family : AddressFamily → Action K Text (List Text)
  dump_family family = do
    responses ←
        as_text host
          (host.request dump (get_route (record default_route_message { address_family = family })))
    from_result (ok (map (format_route std) (routes responses)))

  unfoldable pub dump_routes_fresh : Action K Text (List Text)
  unfolding format_route routes
  dump_routes_fresh = do
    opened ← as_text host host.open_route
    routes4 ← dump_family inet
    routes6 ← dump_family inet6
    from_result (ok (routes4 ++ routes6))
