-- ===== src/Tests/Routes.antt =====
-- A route by an interface, on a small machine.
use segwire.Base.{true, some, [], ◌∷◌, ok, ◌≡◌, refl}
use segwire.Text.{lit}
use segwire.Text.Equality.{text_eq}
use segwire.Text.Numbers.{parse_uint, decimal}
use segwire.Text.Split.{split_once}
use segwire.Netlink.{v4}
use segwire.Host.{Host}
use segwire.Rtnl.{
  inner_message, new_link, default_link, if_name, RouteMessage, default_route_message, destination,
  gateway, priority, oif, ip_address, inet,
}
use segwire.Rtnl.Links.{
  get_interface_index_fresh, dump_links, extract_interface_index, links, find_index,
}
use segwire.Rtnl.Routes.{Parsing, RawRouteParams, build_route, format_route}
use segwire.Rtnl.Calls.{route_message}
use segwire.Rtnl.Laws.{Says, format_route-route_message}
use segwire.Tests.Machine.{Machine, machine}

abbrev std : Parsing
std = record { parse_ip = λ s. ok (v4 1); number_error = λ s. []; show_ip = λ ip. lit "10.1.0.0" }

-- The machine has one link, with the index 7.
abbrev linked : Host Machine
linked = record machine {
  request = λ flags msg m. (
    ok (
        inner_message
          (new_link (record default_link { index = 7; attributes = if_name (lit "veth0") ∷ [] }))
        ∷ []),
    m,
  );
}

abbrev by_veth : RawRouteParams
by_veth = record {
  destination = lit "10.1.0.0/16";
  gateway = lit "10.0.0.2";
  interface = some (lit "veth0");
  metric = some 5;
}

abbrev one_link : Machine
one_link = record { files = []; descriptors = 3; has_sockets = true }

abbrev sent : RouteMessage
sent = record default_route_message {
  address_family = inet;
  destination_prefix_length = 16;
  table = 254;
  protocol = 4;
  scope = 0;
  route_type = 1;
  attributes =
      destination (ip_address (v4 1)) ∷ gateway (ip_address (v4 1)) ∷ priority 5 ∷ oif 7 ∷ [];
}

sent-made : (route_message std linked by_veth one_link).0 ≡ ok sent
unfolding route_message build_route get_interface_index_fresh dump_links extract_interface_index
    links find_index split_once lit text_eq parse_uint
sent-made = refl

listed : format_route std sent ≡ lit "10.1.0.0/16 via 10.1.0.0 dev ifindex:7 metric 5"
unfolding format_route lit decimal
listed = refl

format_route-route_message_example : Says std linked by_veth one_link sent
format_route-route_message_example =
    format_route-route_message std linked by_veth sent one_link sent-made
