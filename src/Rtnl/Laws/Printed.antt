-- ===== src/Rtnl/Laws/Printed.antt =====
-- A route by its parts: the message that says them, and how that is printed.
use segwire.Base.{
  ℕ, Option, none, some, [], ◌∷◌, ◌++◌, ◌≡◌, refl, Bool-cases, inl, inr, append_assoc, append-nil,
  ◌==◌, if◌then◌else◌,
}
use segwire.Text.{Text, lit}
use segwire.Text.Numbers.{decimal}
use segwire.Netlink.{IpAddr}
use segwire.Rtnl.{gateway, ip_address, AddressFamily, inet, family_for, RouteMessage, oif}
use segwire.Rtnl.Routes.{
  Parsing, format_route, with_destination, with_metric, static_route, Building, add_attribute,
  or_family,
}

-- What a route says: its destination with the length of the prefix, where it is not the default route, its
-- gateway, its metric and the index of its interface.
pub record RouteParts : Type 0 where
  pub dest : Option (IpAddr × ℕ)
  pub via : Option IpAddr
  pub metric : Option ℕ
  pub index : Option ℕ

-- The family: that of the destination, else that of the gateway, else that of IPv4.
abbrev pub parts_family : Option (IpAddr × ℕ) → Option IpAddr → AddressFamily
parts_family (some (ip, n)) via = family_for ip
parts_family none (some gw) = family_for gw
parts_family none none = inet

unfoldable pub show_dest : Parsing → Option (IpAddr × ℕ) → Text
unfolding decimal lit
show_dest std none = lit "default"
show_dest std (some (ip, n)) = std.show_ip ip ++ (b'/' ∷ decimal n)

unfoldable pub show_via : Parsing → Option IpAddr → Text
unfolding lit
show_via std none = []
show_via std (some gw) = lit " via " ++ std.show_ip gw

-- An index 0 is not shown.
unfoldable pub show_index : Option ℕ → Text
unfolding lit decimal
show_index none = []
show_index (some n) = if n == 0 then [] else lit " dev ifindex:" ++ decimal n

unfoldable pub show_metric : Option ℕ → Text
unfolding lit decimal
show_metric none = []
show_metric (some n) = lit " metric " ++ decimal n

abbrev pub show_parts : Parsing → RouteParts → Text
show_parts std p =
    show_dest std p.dest ++ (show_via std p.via ++ (show_index p.index ++ show_metric p.metric))

-- The message, a step at a time.
abbrev pub dest_message : Option (IpAddr × ℕ) → Building
dest_message none = (record static_route { destination_prefix_length = 0 }, none)
dest_message (some (ip, n)) = with_destination ip n static_route

abbrev pub via_message : Option IpAddr → Building → Building
via_message none b = b
via_message (some gw) (msg, family) =
    (add_attribute (gateway (ip_address gw)) msg, some (or_family family (family_for gw)))

abbrev pub index_message : Option ℕ → RouteMessage → RouteMessage
index_message none msg = msg
index_message (some n) msg = add_attribute (oif n) msg

abbrev pub with_family : Option ℕ → Building → RouteMessage
with_family metric (msg, family) =
    with_metric metric (record msg { address_family = or_family family inet })

abbrev pub parts_message : RouteParts → RouteMessage
parts_message p =
    index_message p.index (with_family p.metric (via_message p.via (dest_message p.dest)))

pub family-parts_message :
    (dest : Option (IpAddr × ℕ)) (via : Option IpAddr) (metric index : Option ℕ)
    → (parts_message
        (record { dest = dest; via = via; metric = metric; index = index })).address_family
      ≡ parts_family dest via
family-parts_message none none none none = refl
family-parts_message none none none (some n) = refl
family-parts_message none none (some m) none = refl
family-parts_message none none (some m) (some n) = refl
family-parts_message none (some gw) none none = refl
family-parts_message none (some gw) none (some n) = refl
family-parts_message none (some gw) (some m) none = refl
family-parts_message none (some gw) (some m) (some n) = refl
family-parts_message (some d) none none none = refl
family-parts_message (some d) none none (some n) = refl
family-parts_message (some d) none (some m) none = refl
family-parts_message (some d) none (some m) (some n) = refl
family-parts_message (some d) (some gw) none none = refl
family-parts_message (some d) (some gw) none (some n) = refl
family-parts_message (some d) (some gw) (some m) none = refl
family-parts_message (some d) (some gw) (some m) (some n) = refl

pub format-parts_message :
    (std : Parsing) (p : RouteParts) → format_route std (parts_message p) ≡ show_parts std p
unfolding format_route show_dest show_via show_index show_metric
format-parts_message std p = go p.dest p.via p.metric p.index
  where
    go :
        (dest : Option (IpAddr × ℕ)) (via : Option IpAddr) (metric index : Option ℕ)
        → format_route std
            (parts_message (record { dest = dest; via = via; metric = metric; index = index }))
          ≡ show_parts std (record { dest = dest; via = via; metric = metric; index = index })
    go none none none none = simp append-nil
    go none none none (some n) = elim (Bool-cases (n == 0)) [
      | inl hidden ↦ rw hidden (simp append-nil)
      | inr shown ↦ rw shown (simp append-nil)
    ]
    go none none (some m) none = refl
    go none none (some m) (some n) = elim (Bool-cases (n == 0)) [
      | inl hidden ↦ rw hidden (refl)
      | inr shown ↦ rw shown (refl)
    ]
    go none (some gw) none none = simp append-nil
    go none (some gw) none (some n) = elim (Bool-cases (n == 0)) [
      | inl hidden ↦ rw hidden (simp append-nil)
      | inr shown ↦ rw shown (simp append-nil)
    ]
    go none (some gw) (some m) none = simp append_assoc
    go none (some gw) (some m) (some n) = elim (Bool-cases (n == 0)) [
      | inl hidden ↦ rw hidden (simp append_assoc)
      | inr shown ↦ rw shown (simp append_assoc)
    ]
    go (some (ip, len)) none none none = simp (append_assoc, append-nil)
    go (some (ip, len)) none none (some n) = elim (Bool-cases (n == 0)) [
      | inl hidden ↦ rw hidden (simp (append_assoc, append-nil))
      | inr shown ↦ rw shown (simp (append_assoc, append-nil))
    ]
    go (some (ip, len)) none (some m) none = simp append_assoc
    go (some (ip, len)) none (some m) (some n) = elim (Bool-cases (n == 0)) [
      | inl hidden ↦ rw hidden (simp append_assoc)
      | inr shown ↦ rw shown (simp append_assoc)
    ]
    go (some (ip, len)) (some gw) none none = simp (append_assoc, append-nil)
    go (some (ip, len)) (some gw) none (some n) = elim (Bool-cases (n == 0)) [
      | inl hidden ↦ rw hidden (simp (append_assoc, append-nil))
      | inr shown ↦ rw shown (simp (append_assoc, append-nil))
    ]
    go (some (ip, len)) (some gw) (some m) none = simp append_assoc
    go (some (ip, len)) (some gw) (some m) (some n) = elim (Bool-cases (n == 0)) [
      | inl hidden ↦ rw hidden (simp append_assoc)
      | inr shown ↦ rw shown (simp append_assoc)
    ]
