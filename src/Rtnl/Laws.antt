-- ===== src/Rtnl/Laws.antt =====
-- The route that is added, and how the daemon lists it again.
pub mod Printed
use segwire.Base.{
  ok-injective, ◌>>=◌, ℕ, false, true, Bool, Option, none, some, ◌∷◌, Result, ok, err, ◌≡◌, refl,
  sym, ◌∙◌, ap, inl, inr, ◌⊎◌, ok_or, if◌then◌else◌, >>=-eq-ok, map_err-eq-ok,
}
use segwire.Text.{Text, lit, is_empty}
use segwire.Text.Equality.{text_eq}
use segwire.Text.Numbers.{parse_uint}
use segwire.Text.Split.{split_once}
use segwire.Netlink.{IpAddr}
use segwire.Host.{Host, and_then, from_result}
use segwire.Rtnl.{AddressFamily, RouteMessage, oif}
use segwire.Rtnl.Links.{get_interface_index_fresh}
use segwire.Rtnl.Calls.{route_message, with_interface}
use segwire.Rtnl.Routes.{
  Parsing, RawRouteParams, build_route, format_route, build_destination, build_gateway,
  static_route, host_prefix, Building, add_attribute, network_destination, parse_ip_or,
}
use segwire.Rtnl.Laws.Printed.{
  show_parts, parts_family, parts_message, with_family, dest_message, via_message, index_message,
  format-parts_message, family-parts_message,
}

-- What the texts of the parameters say, as they are parsed.
abbrev pub IsDestination : Parsing → Text → Option (IpAddr × ℕ) → Type 0
IsDestination std dest none = text_eq dest (lit "default") ≡ true
IsDestination std dest (some (ip, n)) =
    (text_eq dest (lit "default") ≡ false)
    × (((ip_str : Text) × (bits : Text) × (split_once b'/' dest ≡ some (ip_str, bits))
          × (parse_uint 255 bits ≡ some n)
          × (std.parse_ip ip_str ≡ ok ip))
        ⊎ ((split_once b'/' dest ≡ none) × (std.parse_ip dest ≡ ok ip) × (n ≡ host_prefix ip)))

abbrev pub IsGateway : Parsing → Text → Option IpAddr → Type 0
IsGateway std text none = is_empty text ≡ true
IsGateway std text (some gw) = (is_empty text ≡ false) × (std.parse_ip text ≡ ok gw)

abbrev pub IsIndex : {K : Type 0} → Host K → Option Text → K → Option ℕ → Type 0
IsIndex host none k index = index ≡ none
IsIndex host (some iface) k index =
    (n : ℕ) × (index ≡ some n) × ((get_interface_index_fresh host iface k).0 ≡ ok n)

ok_or-eq-ok : {A E : Type 0} (o : Option A) (e : E) {a : A} → ok_or o e ≡ ok a → o ≡ some a
ok_or-eq-ok none e h = absurd (cc)
ok_or-eq-ok (some a) e h = cc

module _ (std : Parsing) where
  network-IsDestination :
      (cut : Option (Text × Text)) (dest : Text) (b : Building)
      → split_once b'/' dest ≡ cut
      → text_eq dest (lit "default") ≡ false
      → network_destination std cut dest static_route ≡ ok b
      → (d : Option (IpAddr × ℕ)) × IsDestination std dest d × (b ≡ dest_message d)
  network-IsDestination none dest b whole named h =
      let (ip, parsed, made) = >>=-eq-ok _ _ h in
      (
        some (ip, host_prefix ip),
        (named, inr (whole, map_err-eq-ok _ (std.parse_ip dest) parsed, refl)),
        sym (ok-injective made),
      )
  network-IsDestination (some (ip_str, bits)) dest b cut named h =
      let (n, number, h') = >>=-eq-ok _ _ h in
      let (ip, parsed, made) = >>=-eq-ok _ _ h' in
      (
        some (ip, n),
        (
          named,
          inl (
            ip_str,
            bits,
            cut,
            ok_or-eq-ok (parse_uint 255 bits) _ number,
            map_err-eq-ok _ (std.parse_ip ip_str) parsed,
          ),
        ),
        sym (ok-injective made),
      )

  build_destination-IsDestination :
      (dest : Text) (b : Building)
      → build_destination std dest static_route ≡ ok b
      → (d : Option (IpAddr × ℕ)) × IsDestination std dest d × (b ≡ dest_message d)
  build_destination-IsDestination dest b = go (text_eq dest (lit "default")) refl
    where
      go :
          (all : Bool)
          → text_eq dest (lit "default") ≡ all
          → (if all
              then ok (dest_message none)
              else network_destination std (split_once b'/' dest) dest static_route)
            ≡ ok b
          → (d : Option (IpAddr × ℕ)) × IsDestination std dest d × (b ≡ dest_message d)
      go true all h = (none, all, sym (ok-injective h))
      go false named h = network-IsDestination (split_once b'/' dest) dest b refl named h

  build_gateway-IsGateway :
      (text : Text) (b b' : Building)
      → build_gateway std text b ≡ ok b'
      → (via : Option IpAddr) × IsGateway std text via × (b' ≡ via_message via b)
  build_gateway-IsGateway text b b' = go (is_empty text) refl
    where
      go :
          (empty : Bool)
          → is_empty text ≡ empty
          → (if empty
              then ok b
              else parse_ip_or std (lit "invalid gateway IP: ") text >>= λ gw.
                  ok (via_message (some gw) b))
            ≡ ok b'
          → (via : Option IpAddr) × IsGateway std text via × (b' ≡ via_message via b)
      go true empty h = (none, empty, sym (ok-injective h))
      go false full h =
          let (gw, parsed, made) = >>=-eq-ok _ _ h in
          (some gw, (full, map_err-eq-ok _ (std.parse_ip text) parsed), sym (ok-injective made))

  module _ {K : Type 0} (host : Host K) where
    with_interface-IsIndex :
        (interface : Option Text) (msg msg' : RouteMessage) (k : K)
        → (with_interface std host interface msg k).0 ≡ ok msg'
        → (index : Option ℕ) × IsIndex host interface k index × (msg' ≡ index_message index msg)
    with_interface-IsIndex none msg msg' k h = (none, refl, sym (ok-injective h))
    with_interface-IsIndex (some iface) msg msg' k h =
        go (get_interface_index_fresh host iface k) refl h
      where
        go :
            (r : Result Text ℕ × K)
            → get_interface_index_fresh host iface k ≡ r
            → (and_then r (λ n. from_result (ok (add_attribute (oif n) msg)))).0 ≡ ok msg'
            → (index : Option ℕ) × IsIndex host (some iface) k index
              × (msg' ≡ index_message index msg)
        go (ok n, k') found h' = (some n, (n, refl, ap (λ r. r.0) found), sym (ok-injective h'))
        go (err e, k') found h' = absurd (cc)

    -- What a message says of its parameters.
    abbrev pub Says : RawRouteParams → K → RouteMessage → Type 0
    Says params k msg =
        (dest : Option (IpAddr × ℕ)) × (via : Option IpAddr) × (index : Option ℕ) × IsDestination
          std params.destination dest
        × IsGateway std params.gateway via
        × IsIndex host params.interface k index
        × (msg.address_family ≡ parts_family dest via)
        × (format_route std msg
            ≡ show_parts std
                (record { dest = dest; via = via; metric = params.metric; index = index }))

    -- A message that is made for a route has the destination, the gateway and the index that the texts of its
    -- parameters are parsed and looked up as, and the family of the destination, or that of the gateway for a
    -- default route; and it is listed with just these parts and the metric, but for an index 0.
    pub format_route-route_message :
        (params : RawRouteParams) (msg : RouteMessage) (k : K)
        → (route_message std host params k).0 ≡ ok msg
        → Says params k msg
    unfolding route_message build_route
    format_route-route_message params msg k h = go (build_route std params) refl h
      where
        go :
            (r : Result Text RouteMessage)
            → build_route std params ≡ r
            → (and_then (r, k) (λ built. with_interface std host params.interface built)).0 ≡ ok msg
            → Says params k msg
        go (err e) built h' = absurd (cc)
        go (ok built_msg) built h' =
            let (with_dest, made, later) =
              >>=-eq-ok (build_destination std params.destination static_route) _ built in
            let (with_via, passed, last) =
              >>=-eq-ok (build_gateway std params.gateway with_dest) _ later in
            let (dest, is_dest, dest_is) =
              build_destination-IsDestination params.destination with_dest made in
            let (via, is_via, via_is) =
              build_gateway-IsGateway params.gateway with_dest with_via passed in
            let (index, is_index, index_is) =
              with_interface-IsIndex params.interface built_msg msg k h' in
            let whole : msg
                ≡ parts_message
                    (record { dest = dest; via = via; metric = params.metric; index = index }) =
              index_is
              ∙ ap (index_message index) (
                  sym (ok-injective last)
                  ∙ ap (with_family params.metric) (via_is ∙ ap (via_message via) dest_is)) in
            (
              dest,
              via,
              index,
              is_dest,
              is_via,
              is_index,
              ap (λ m. m.address_family) whole ∙ family-parts_message dest via params.metric index,
              ap (format_route std) whole ∙ format-parts_message std _,
            )
