-- ===== src/Rtnl/Routes.antt =====
-- Route messages of crates/segwire-daemon/src/netlink_raw.rs: how one is built of its parameters, and how
-- one is printed. `IpAddr::from_str`, its printing and the texts of errors are parameters.
use segwire.Base.{
  ℕ, Option, none, some, List, [], ◌∷◌, ◌++◌, Result, ok, map_err, ok_or, ◌==◌, if◌then◌else◌,
  ◌>>=◌,
}
use segwire.Text.{Text, lit, is_empty}
use segwire.Text.Equality.{text_eq}
use segwire.Text.Numbers.{decimal, parse_uint}
use segwire.Text.Split.{split_once}
use segwire.Netlink.{IpAddr, v4, v6, RouteConfig}
use segwire.Rtnl.{
  family_for, AddressFamily, inet, ip_address, other_address, RouteAttribute, destination, gateway,
  priority, oif, other_route_attribute, RouteMessage, default_route_message, get_link, set_link,
  new_link, get_route, new_route, new_address, Payload, inner_message, other_payload,
}

-- What the code asks of the standard library: `IpAddr::from_str` and `u8::from_str`, each with the text of
-- its error.
pub record Parsing : Type 0 where
  pub parse_ip : Text → Result Text IpAddr
  pub number_error : Text → Text
  pub show_ip : IpAddr → Text

-- The four fields of RouteConfig, which are copied one by one.
abbrev pub RawRouteParams : Type 0
RawRouteParams = RouteConfig

-- RT_TABLE_MAIN, RTPROT_STATIC, RT_SCOPE_UNIVERSE and RTN_UNICAST
abbrev pub static_route : RouteMessage
static_route = record default_route_message { table = 254; protocol = 4; scope = 0; route_type = 1 }

abbrev pub host_prefix : IpAddr → ℕ
host_prefix (v4 n) = 32
host_prefix (v6 n) = 128

abbrev pub add_attribute : RouteAttribute → RouteMessage → RouteMessage
add_attribute a msg = record msg { attributes = msg.attributes ++ a ∷ [] }

-- The message, and the family that its addresses have shown so far.
abbrev pub Building : Type 0
Building = RouteMessage × Option AddressFamily

abbrev pub with_destination : IpAddr → ℕ → RouteMessage → Building
with_destination ip prefix_len msg = (
  add_attribute (destination (ip_address ip))
      (record msg { destination_prefix_length = prefix_len }),
  some (family_for ip),
)

abbrev pub or_family : Option AddressFamily → AddressFamily → AddressFamily
or_family none family = family
or_family (some found) family = found

abbrev pub with_metric : Option ℕ → RouteMessage → RouteMessage
with_metric none msg = msg
with_metric (some metric) msg = add_attribute (priority metric) msg

module _ (std : Parsing) where
  abbrev pub parse_ip_or : Text → Text → Result Text IpAddr
  parse_ip_or what s = map_err (λ e. what ++ e) (std.parse_ip s)

  abbrev pub parse_u8 : Text → Result Text ℕ
  parse_u8 s = ok_or (parse_uint 255 s) (lit "invalid prefix length: " ++ std.number_error s)

  abbrev pub network_destination : Option (Text × Text) → Text → RouteMessage → Result Text Building
  network_destination (some (ip_str, prefix_len_str)) dest msg =
      parse_u8 prefix_len_str >>= λ prefix_len.
      parse_ip_or (lit "invalid destination IP: ") ip_str >>= λ ip.
      ok (with_destination ip prefix_len msg)
  network_destination none dest msg = parse_ip_or (lit "invalid destination IP: ") dest >>= λ ip.
      ok (with_destination ip (host_prefix ip) msg)

  abbrev pub build_destination : Text → RouteMessage → Result Text Building
  build_destination dest msg =
      if text_eq dest (lit "default")
      then ok (record msg { destination_prefix_length = 0 }, none)
      else network_destination (split_once b'/' dest) dest msg

  abbrev pub build_gateway : Text → Building → Result Text Building
  build_gateway gateway_text (msg, family) =
      if is_empty gateway_text
      then ok (msg, family)
      else parse_ip_or (lit "invalid gateway IP: ") gateway_text >>= λ gw.
          ok (add_attribute (gateway (ip_address gw)) msg, some (or_family family (family_for gw)))

  -- The part of add_route_fresh in front of its calls.
  unfoldable pub build_route : RawRouteParams → Result Text RouteMessage
  unfolding lit text_eq split_once
  build_route params = do
    with_dest ← build_destination params.destination static_route
    (msg, family) ← build_gateway params.gateway with_dest
    ok (with_metric params.metric (record msg { address_family = or_family family inet }))

  -- What format_route has read of the attributes: destination, gateway, index and metrics.
  pub record Shown : Type 0 where
    pub dest : Text
    pub via : Text
    pub index : ℕ
    pub parts : List Text

  abbrev show_attribute : ℕ → RouteAttribute → Shown → Shown
  show_attribute len (destination (ip_address ip)) s = record s {
    dest = std.show_ip ip ++ (b'/' ∷ decimal len);
  }
  show_attribute len (destination other_address) s = s
  show_attribute len (gateway (ip_address ip)) s = record s { via = lit "via " ++ std.show_ip ip }
  show_attribute len (gateway other_address) s = s
  show_attribute len (oif idx) s = record s { index = idx }
  show_attribute len (priority metric) s = record s {
    parts = s.parts ++ (lit "metric " ++ decimal metric) ∷ [];
  }
  show_attribute len other_route_attribute s = s

  abbrev show_attributes : ℕ → List RouteAttribute → Shown → Shown
  show_attributes len [] s = s
  show_attributes len (a ∷ rest) s = show_attributes len rest (show_attribute len a s)

  abbrev add_part : Text → Text → Text
  add_part line part = line ++ (b' ' ∷ part)

  abbrev add_parts : Text → List Text → Text
  add_parts line [] = line
  add_parts line (part ∷ rest) = add_parts (add_part line part) rest

  abbrev show_line : Shown → Text
  show_line s =
      let line = if is_empty s.via then s.dest else add_part s.dest s.via in
      add_parts (if s.index == 0 then line else line ++ (lit " dev ifindex:" ++ decimal s.index))
        s.parts

  unfoldable pub format_route : RouteMessage → Text
  unfolding lit decimal
  format_route route = show_line (
      show_attributes route.destination_prefix_length route.attributes
        (record { dest = lit "default"; via = []; index = 0; parts = [] }))

-- The routes among the answers.
unfoldable pub routes : List Payload → List RouteMessage
routes [] = []
routes (inner_message (new_route route) ∷ rest) = route ∷ routes rest
routes (inner_message (get_link link) ∷ rest) = routes rest
routes (inner_message (set_link link) ∷ rest) = routes rest
routes (inner_message (new_link link) ∷ rest) = routes rest
routes (inner_message (get_route route) ∷ rest) = routes rest
routes (inner_message (new_address addr) ∷ rest) = routes rest
routes (other_payload ∷ rest) = routes rest
