-- ===== src/Wireguard/Accepted.antt =====
-- What validation (crates/segwire-common/src/config.rs) promises to the configuration of a device
-- (crates/segwire-daemon/src/wireguard_raw.rs), and what it does not.
use segwire.Base.{
  ℕ, true, Option, none, some, List, [], ◌∷◌, Result, ok, is_ok, map_err, try_map, All, ◌≡◌, ◌↔◌,
  refl, arith,
}
use segwire.Text.{Text, lit}
use segwire.Text.Numbers.{parse_uint}
use segwire.Text.Split.{split, split_once}
use segwire.Text.Trim.{split-nonempty}
use segwire.Config.{WireguardConfig, WireguardPeerConfig}
use segwire.Config.Validate.{
  Base64, validate_wg_key, validate_peer, validate_wireguard, check_option, for_each_index,
  or_invalid, indexed, add_place,
}
use segwire.Config.Laws.{map_err_iff, for_each_index_iff}
use segwire.Utils.Address.{UnicodeDigits, validate_cidr, validate_cidr_parts}
use segwire.Wireguard.Device.{
  DeviceParsing, parse_allowed_ip, decode_key, build_preshared, build_endpoint, build_allowed,
  build_wireguard_peer, build_peers, build_device,
}

-- A text in one piece has no separator.
split-one : (c : ℕ) (s b : Text) → split c s ≡ b ∷ [] → s ≡ b
unfolding split
split-one c [] b h = cc
split-one c (d ∷ s) b h = go (split c s) refl (split-one c s)
  where
    go : (ls : List Text) → split c s ≡ ls → ((p : Text) → split c s ≡ p ∷ [] → s ≡ p) → d ∷ s ≡ b
    go [] e ih = let (l, ls, whole) = split-nonempty c s in absurd (cc)
    go (p ∷ ls) e ih = ground (arith, ih p)

-- A text in two pieces is cut at its only separator.
split-split_once : (c : ℕ) (s a b : Text) → split c s ≡ a ∷ b ∷ [] → split_once c s ≡ some (a, b)
unfolding split split_once
split-split_once c [] a b h = absurd (cc)
split-split_once c (d ∷ s) a b h = go (split c s) refl (split-split_once c s)
  where
    go :
        (ls : List Text)
        → split c s ≡ ls
        → ((p q : Text) → split c s ≡ p ∷ q ∷ [] → split_once c s ≡ some (p, q))
        → split_once c (d ∷ s) ≡ some (a, b)
    go [] e ih = let (l, ls, whole) = split-nonempty c s in absurd (cc)
    go (p ∷ ls) e ih = ground (arith, ih p b, split-one c s b)

-- A loop of steps over elements that meet `V` succeeds exactly if every element meets `P`.
try_map-is_ok {ℓ κ μ ν τ} :
    {A : Type ℓ} {B : Type κ} {E : Type μ} (V : A → Type ν) (P : A → Type τ) (f : A → Result E B)
    (xs : List A)
    → ((x : A) → V x → (is_ok (f x) ≡ true) ↔ P x)
    → All V xs
    → (is_ok (try_map f xs) ≡ true) ↔ All P xs
unfolding try_map
try_map-is_ok V P f [] each h = ((λ _. tt), (λ _. refl))
try_map-is_ok V P f (x ∷ xs) each (v, h) =
    let (to, from) = each x v in
    let (there, back) = try_map-is_ok V P f xs each h in
    (
      (λ e. (to (ground arith), there (ground arith))),
      (λ (p, ps). let here = from p in let later = back ps in ground arith),
    )

module _ ⦃u : UnicodeDigits⦄ ⦃b : Base64⦄ (std : DeviceParsing) where
  abbrev FrontParses : Option (Text × Text) → Type 0
  FrontParses none = ⊥
  FrontParses (some (ip_str, prefix_str)) = is_ok (std.parse_ip ip_str) ≡ true

  -- The address in front of the slash is one for the standard library.
  abbrev pub IsKnownCidr : Text → Type 0
  IsKnownCidr cidr = FrontParses (split_once b'/' cidr)

  -- An endpoint is a socket address, of numbers.
  abbrev pub IsKnownEndpoint : Option Text → Type 0
  IsKnownEndpoint none = Unit
  IsKnownEndpoint (some text) = is_ok (std.parse_socket_addr text) ≡ true

  abbrev pub IsKnownPeer : WireguardPeerConfig → Type 0
  IsKnownPeer peer = IsKnownEndpoint peer.endpoint × All IsKnownCidr peer.allowed_ips

  validate_cidr_parts-shape :
      (parts : List Text)
      → validate_cidr_parts parts ≡ ok tt
      → (ip : Text) × (bits : Text) × (n : ℕ) × (parts ≡ ip ∷ bits ∷ [])
        × (parse_uint 255 bits ≡ some n)
  unfolding validate_cidr_parts
  validate_cidr_parts-shape [] h = absurd (cc)
  validate_cidr_parts-shape (ip ∷ []) h = absurd (cc)
  validate_cidr_parts-shape (ip ∷ bits ∷ []) h = go (parse_uint 255 bits) refl
    where
      go :
          (o : Option ℕ)
          → parse_uint 255 bits ≡ o
          → (ip' : Text) × (bits' : Text) × (n : ℕ) × (ip ∷ bits ∷ [] ≡ ip' ∷ bits' ∷ [])
            × (parse_uint 255 bits' ≡ some n)
      go none e = absurd (ground arith)
      go (some n) e = (ip, bits, n, refl, e)
  validate_cidr_parts-shape (ip ∷ bits ∷ more ∷ parts) h = absurd (cc)

  parse_allowed_ip-is_ok :
      (cidr : Text)
      → validate_cidr cidr ≡ ok tt
      → (is_ok (parse_allowed_ip std cidr) ≡ true) ↔ IsKnownCidr cidr
  unfolding validate_cidr parse_allowed_ip
  parse_allowed_ip-is_ok cidr h =
      let (ip, bits, n, parts, number) = validate_cidr_parts-shape (split b'/' cidr) h in
      let cut = split-split_once b'/' cidr ip bits parts in
      rw (cut, number) (λ e. ground arith, λ e. ground arith)

  decode_key-is_ok :
      (base64_words length_words key field : Text)
      → validate_wg_key key field ≡ ok tt
      → is_ok (decode_key std base64_words length_words key) ≡ true
  unfolding validate_wg_key
  decode_key-is_ok base64_words length_words key field h = ground arith

  build_preshared-is_ok :
      (psk : Option Text)
      → check_option (λ key. validate_wg_key key (lit "preshared_key")) psk ≡ ok tt
      → is_ok (build_preshared std psk) ≡ true
  build_preshared-is_ok none h = refl
  build_preshared-is_ok (some psk) h = ground (
    arith,
    decode_key-is_ok (lit "invalid preshared key base64: ")
        (lit "preshared key must be 32 bytes, got ") psk (lit "preshared_key"),
  )

  build_endpoint-is_ok :
      (text : Option Text) → (is_ok (build_endpoint std text) ≡ true) ↔ IsKnownEndpoint text
  build_endpoint-is_ok none = ((λ _. tt), (λ _. refl))
  build_endpoint-is_ok (some text) = ((λ h. ground arith), (λ h. ground arith))

  build_allowed-is_ok :
      (cidrs : List Text)
      → All (λ cidr. validate_cidr cidr ≡ ok tt) cidrs
      → (is_ok (build_allowed std cidrs) ≡ true) ↔ All IsKnownCidr cidrs
  build_allowed-is_ok [] h = ((λ _. tt), (λ _. refl))
  build_allowed-is_ok (cidr ∷ rest) h =
      let (to, from) =
        try_map-is_ok (λ c. validate_cidr c ≡ ok tt) IsKnownCidr (parse_allowed_ip std)
          (cidr ∷ rest) parse_allowed_ip-is_ok h in
      ((λ e. to (ground arith)), (λ known. let made = from known in ground arith))

  build_wireguard_peer-is_ok :
      (peer : WireguardPeerConfig)
      → validate_peer peer ≡ ok tt
      → (is_ok (build_wireguard_peer std peer) ≡ true) ↔ IsKnownPeer peer
  unfolding validate_peer build_wireguard_peer
  build_wireguard_peer-is_ok peer h =
      let check =
        λ (i : ℕ) (ip : Text). or_invalid (indexed (lit "allowed_ips") i) ip (validate_cidr ip) in
      let key : validate_wg_key peer.public_key (lit "public_key") ≡ ok tt = ground arith in
      let psk : check_option (λ k. validate_wg_key k (lit "preshared_key")) peer.preshared_key
          ≡ ok tt =
        ground arith in
      let cidrs : for_each_index check 0 peer.allowed_ips ≡ ok tt = ground arith in
      let valid =
        (for_each_index_iff (λ ip. validate_cidr ip ≡ ok tt) check 0 peer.allowed_ips
            (λ i ip. map_err_iff _ _)).0
          cidrs in
      let public_key =
        decode_key-is_ok (lit "invalid peer public key base64: ")
          (lit "peer public key must be 32 bytes, got ") peer.public_key (lit "public_key") key in
      let preshared = build_preshared-is_ok peer.preshared_key psk in
      let (end_to, end_from) = build_endpoint-is_ok peer.endpoint in
      let (ips_to, ips_from) = build_allowed-is_ok peer.allowed_ips valid in
      (
        (λ e. (end_to (ground arith), ips_to (ground arith))),
        (λ (target, ips). let e1 = end_from target in let e2 = ips_from ips in ground arith),
      )

  build_peers-is_ok :
      (peers : List WireguardPeerConfig)
      → All (λ peer. validate_peer peer ≡ ok tt) peers
      → (is_ok (build_peers std peers) ≡ true) ↔ All IsKnownPeer peers
  build_peers-is_ok [] h = ((λ _. tt), (λ _. refl))
  build_peers-is_ok (peer ∷ rest) h =
      let (to, from) =
        try_map-is_ok (λ p. validate_peer p ≡ ok tt) IsKnownPeer (build_wireguard_peer std)
          (peer ∷ rest) build_wireguard_peer-is_ok h in
      ((λ e. to (ground arith)), (λ known. let made = from known in ground arith))

  -- For a WireGuard configuration that validation has accepted, the attributes of its device can be made
  -- exactly if each endpoint is a socket address and each allowed address is one for the standard library:
  -- no key and no prefix length is refused any more, but an endpoint with the name of a host is.
  pub build_device-is_ok :
      (ifname : Text) (c : WireguardConfig)
      → validate_wireguard c ≡ ok tt
      → (is_ok (build_device std ifname c) ≡ true) ↔ All IsKnownPeer c.peers
  unfolding validate_wireguard build_device
  build_device-is_ok ifname c h =
      let check = λ (i : ℕ) (peer : WireguardPeerConfig).
        map_err (add_place (indexed (lit "wireguard.peers") i)) (validate_peer peer) in
      let key : validate_wg_key c.private_key (lit "wireguard.private_key") ≡ ok tt =
        ground arith in
      let each : for_each_index check 0 c.peers ≡ ok tt = ground arith in
      let valid =
        (for_each_index_iff (λ peer. validate_peer peer ≡ ok tt) check 0 c.peers
            (λ i peer. map_err_iff _ _)).0
          each in
      let private_key =
        decode_key-is_ok (lit "invalid private key base64: ")
          (lit "private key must be 32 bytes, got ") c.private_key (lit "wireguard.private_key")
          key in
      let (to, from) = build_peers-is_ok c.peers valid in
      ((λ e. to (ground arith)), (λ known. let made = from known in ground arith))
