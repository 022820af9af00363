-- ===== src/Wireguard/Device.antt =====
-- The configuration of a WireGuard device of crates/segwire-daemon/src/wireguard_raw.rs: the attributes
-- that are made of a configuration, and their sending. The crate `netlink-packet-wireguard` is present as
-- the attributes that the source names; their bytes (`Emitable`) are a parameter.
use segwire.Base.{
  ℕ, Bool, true, false, Option, none, some, List, [], ◌∷◌, ◌++◌, length, Result, ok, err, map_err,
  ok_or, try_map, ensure, ◌==◌, ◌>>=◌, ◌>>◌,
}
use segwire.Text.{Text, lit}
use segwire.Text.Numbers.{decimal, parse_uint}
use segwire.Text.Split.{split_once}
use segwire.Error.{netlink_message}
use segwire.Config.{WireguardConfig, WireguardPeerConfig}
use segwire.Config.Validate.{Base64}
use segwire.Netlink.{IpAddr, v4, v6}
use segwire.Wire.{Kernel, CallOutcome, returns, panics, waits, unfinished}
use segwire.Wire.Genl.{send_genl_request}
use segwire.Wire.Family.{resolve_genl_family_id}

-- std::net::SocketAddr
pub record SocketAddr : Type 0 where
  pub ip : IpAddr
  pub port : ℕ

pub data WireguardAddressFamily : Type 0 where
  ipv4 ipv6 : WireguardAddressFamily

pub record WireguardAllowedIp : Type 0 where
  pub family : WireguardAddressFamily
  pub ip_addr : IpAddr
  pub cidr : ℕ

pub data WireguardPeerAttribute : Type 0 where
  public_key preshared_key : List ℕ → WireguardPeerAttribute
  endpoint : SocketAddr → WireguardPeerAttribute
  persistent_keepalive : ℕ → WireguardPeerAttribute
  allowed_ips : List WireguardAllowedIp → WireguardPeerAttribute

abbrev pub WireguardPeer : Type 0
WireguardPeer = List WireguardPeerAttribute

pub data WireguardAttribute : Type 0 where
  if_name : Text → WireguardAttribute
  private_key : List ℕ → WireguardAttribute
  listen_port fwmark : ℕ → WireguardAttribute
  peers : List WireguardPeer → WireguardAttribute

-- The parsers of the standard library, and the texts of errors.
pub record DeviceParsing : Type 0 where
  pub parse_ip : Text → Result Text IpAddr
  pub parse_socket_addr : Text → Result Text SocketAddr
  pub decode_error : Text → Text
  pub number_error : Text → Text

abbrev in_cidr : Text → Text → Text → Text
in_cidr what cidr e = what ++ (cidr ++ (lit "': " ++ e))

abbrev family_of : IpAddr → WireguardAddressFamily
family_of (v4 n) = ipv4
family_of (v6 n) = ipv6

abbrev optional : {A : Type 0} → Bool → A → List A
optional true a = []
optional false a = a ∷ []

-- What the call comes to: it ends, or does not for one of the reasons that CallOutcome has.
pub data DeviceOutcome : Type 0 where
  ends : Result Text (Unit {0}) → DeviceOutcome
  crashes hangs runs_on : DeviceOutcome

module _ ⦃b : Base64⦄ (std : DeviceParsing) where
  abbrev pub parse_allowed_parts : Text → Option (Text × Text) → Result Text WireguardAllowedIp
  parse_allowed_parts cidr none =
      err (lit "allowed_ip '" ++ (cidr ++ lit "' must be in CIDR notation"))
  parse_allowed_parts cidr (some (ip_str, prefix_str)) = do
    ip ← map_err (in_cidr (lit "invalid IP in allowed_ip '") cidr) (std.parse_ip ip_str)
    prefix_len ←
        ok_or (parse_uint 255 prefix_str)
          (in_cidr (lit "invalid prefix length in '") cidr (std.number_error prefix_str))
    ok (record { family = family_of ip; ip_addr = ip; cidr = prefix_len })

  unfoldable pub parse_allowed_ip : Text → Result Text WireguardAllowedIp
  unfolding lit
  parse_allowed_ip cidr = parse_allowed_parts cidr (split_once b'/' cidr)

  -- A key of 32 bytes, with the words of its two errors.
  abbrev pub decode_key : Text → Text → Text → Result Text (List ℕ)
  decode_key base64_words length_words key = do
    bytes ← ok_or (b.decode key) (base64_words ++ std.decode_error key)
    ensure (length bytes == 32) (length_words ++ decimal (length bytes))
    ok bytes

  abbrev pub build_preshared : Option Text → Result Text (List WireguardPeerAttribute)
  build_preshared none = ok []
  build_preshared (some psk) = do
    bytes ←
        decode_key (lit "invalid preshared key base64: ")
          (lit "preshared key must be 32 bytes, got ") psk
    ok (preshared_key bytes ∷ [])

  abbrev pub build_endpoint : Option Text → Result Text (List WireguardPeerAttribute)
  build_endpoint none = ok []
  build_endpoint (some text) = do
    addr ←
        map_err (λ e. lit "invalid endpoint '" ++ (text ++ (lit "': " ++ e)))
          (std.parse_socket_addr text)
    ok (endpoint addr ∷ [])

  abbrev pub build_allowed : List Text → Result Text (List WireguardPeerAttribute)
  build_allowed [] = ok []
  build_allowed (cidr ∷ rest) = do
    allowed ← try_map parse_allowed_ip (cidr ∷ rest)
    ok (allowed_ips allowed ∷ [])

  unfoldable pub build_wireguard_peer : WireguardPeerConfig → Result Text WireguardPeer
  unfolding lit
  build_wireguard_peer peer = do
    key ←
        decode_key (lit "invalid peer public key base64: ")
          (lit "peer public key must be 32 bytes, got ") peer.public_key
    preshared ← build_preshared peer.preshared_key
    target ← build_endpoint peer.endpoint
    allowed ← build_allowed peer.allowed_ips
    let keepalive =
        optional (peer.persistent_keepalive == 0) (persistent_keepalive peer.persistent_keepalive)
    ok (public_key key ∷ (preshared ++ (target ++ (keepalive ++ allowed))))

  abbrev pub build_peers : List WireguardPeerConfig → Result Text (List WireguardAttribute)
  build_peers [] = ok []
  build_peers (peer ∷ rest) = do
    wg_peers ← try_map build_wireguard_peer (peer ∷ rest)
    ok (peers wg_peers ∷ [])

  -- The attributes of the message SetDevice.
  unfoldable pub build_device : Text → WireguardConfig → Result Text (List WireguardAttribute)
  unfolding lit
  build_device ifname config = do
    key ←
        decode_key (lit "invalid private key base64: ") (lit "private key must be 32 bytes, got ")
          config.private_key
    wg_peers ← build_peers config.peers
    let port = optional (config.listen_port == 0) (listen_port config.listen_port)
    let mark = optional (config.fwmark == 0) (fwmark config.fwmark)
    ok (if_name ifname ∷ private_key key ∷ (port ++ (mark ++ wg_peers)))

  abbrev then_text : {A : Type 0} → CallOutcome A → (A → DeviceOutcome) → DeviceOutcome
  then_text (returns (ok a)) next = next a
  then_text (returns (err e)) next = ends (err (netlink_message e))
  then_text panics next = crashes
  then_text waits next = hangs
  then_text unfinished next = runs_on

  abbrev send_device :
      Kernel
      → (List WireguardAttribute → List ℕ)
      → ℕ
      → Result Text (List WireguardAttribute)
      → DeviceOutcome
  send_device k emit family_id (err e) = ends (err e)
  send_device k emit family_id (ok attrs) =
      then_text (send_genl_request k family_id 1 1 (emit attrs)) (λ sent. ends (ok tt))

  unfoldable pub configure_wireguard_device :
      Kernel → (List WireguardAttribute → List ℕ) → Text → WireguardConfig → DeviceOutcome
  unfolding build_device
  configure_wireguard_device k emit ifname config =
      then_text (resolve_genl_family_id k (lit "wireguard") (lit "wireguard"))
        (λ family_id. send_device k emit family_id (build_device ifname config))
