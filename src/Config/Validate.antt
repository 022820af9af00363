-- ===== src/Config/Validate.antt =====
-- The `validate` methods of crates/segwire-common/src/config.rs. The crate `base64` is a parameter.
use segwire.Base.{
  ℕ, ◌+◌, Bool, true, false, not, ◌&&◌, Option, none, some, List, [], ◌∷◌, ◌++◌, map, ◌==◌, any,
  length, ok, err, ensure, map_err, ok_or, for_each, ◌>>◌, ◌>>=◌,
}
use segwire.Text.{Text, lit, is_empty, starts_with_char, contains_char}
use segwire.Text.Equality.{text_eq}
use segwire.Text.Numbers.{decimal, parse_uint}
use segwire.Text.Split.{rsplit_once}
use segwire.Sorting.{sort, dedup, first_repeat}
use segwire.Error.{SegwireResult, SegwireError, config, invalid_value, missing_field}
use segwire.Utils.Names.{
  validate_interface_name, validate_namespace_name, validate_namespace_prefix,
}
use segwire.Utils.Address.{UnicodeDigits, validate_ip_address, validate_cidr}
use segwire.Utils.Domain.{validate_domain_name}
use segwire.Config.{
  LoggingConfig, DaemonConfig, NamespaceConfig, InterfaceConfig, VirtualInterface, RoutingConfig,
  Route, DnsConfig, WireguardConfig, WireguardPeerConfig,
}

-- `general_purpose::STANDARD.decode` of the crate `base64`: the bytes, or a refusal.
pub record Base64 : Type 0 where
  pub decode : Text → Option (List ℕ)

abbrev pub invalid : Text → Text → SegwireError
invalid field value = config (invalid_value field value)

-- `.map_err(|_| ConfigError::InvalidValue { field, value })`
abbrev pub or_invalid : Text → Text → SegwireResult (Unit {0}) → SegwireResult (Unit {0})
or_invalid field value r = map_err (λ _. invalid field value) r

-- `.iter().enumerate()` from an index on
unfoldable pub for_each_index {ℓ} :
    {A : Type ℓ} → (ℕ → A → SegwireResult (Unit {0})) → ℕ → List A → SegwireResult (Unit {0})
for_each_index f i [] = ok tt
for_each_index f i (x ∷ xs) = let rest = for_each_index f (i + 1) xs in f i x >>= λ _. rest

-- field[index]
abbrev pub indexed : Text → ℕ → Text
indexed field i = field ++ (b'[' ∷ (decimal i ++ b']' ∷ []))

abbrev pub check_option {ℓ} :
    {A : Type ℓ} → (A → SegwireResult (Unit {0})) → Option A → SegwireResult (Unit {0})
check_option f none = ok tt
check_option f (some a) = f a

-- The field of an invalid value, put behind the place of the item that it belongs to.
unfoldable pub add_place : Text → SegwireError → SegwireError
add_place place (config (invalid_value field value)) = invalid (place ++ (b'.' ∷ field)) value
add_place place e = e

module _ ⦃u : UnicodeDigits⦄ where
  -- VirtualInterface::validate
  abbrev pub valid_types : List Text
  valid_types =
      lit "veth" ∷ lit "bridge" ∷ lit "dummy" ∷ lit "macvlan" ∷ lit "ipvlan" ∷ lit "wireguard" ∷ []

  unfoldable pub check_peer : Text → Text → SegwireResult (Unit {0})
  check_peer name peer = do
    or_invalid (lit "interfaces.virtual.peer") peer (validate_interface_name peer)
    ensure (not (text_eq peer name)) (
        invalid (lit "interfaces.virtual.peer")
          (lit "Peer name cannot be the same as interface name"))

  abbrev pub is_none : Option Text → Bool
  is_none none = true
  is_none (some t) = false

  unfoldable pub validate_virtual_interface : VirtualInterface → SegwireResult (Unit {0})
  unfolding check_peer for_each_index
  validate_virtual_interface vif = do
    or_invalid (lit "interfaces.virtual.name") vif.name (validate_interface_name vif.name)
    ensure (any (λ t. text_eq t vif.interface_type) valid_types)
        (invalid (lit "interfaces.virtual.type") vif.interface_type)
    check_option (check_peer vif.name) vif.peer
    ensure (not (text_eq vif.interface_type (lit "veth") && is_none vif.peer))
        (config (missing_field (lit "interfaces.virtual.peer")))
    for_each_index
        (λ i addr.
          or_invalid (indexed (lit "interfaces.virtual.addresses") i) addr (validate_cidr addr))
        0 vif.addresses

  -- The names that the virtual interfaces bring in: each name, and its peer behind it.
  unfoldable pub virtual_names : List VirtualInterface → List Text
  virtual_names [] = []
  virtual_names (vif ∷ rest) = elim vif.peer [
    | none ↦ vif.name ∷ virtual_names rest
    | some peer ↦ vif.name ∷ peer ∷ virtual_names rest
  ]

  -- InterfaceConfig::validate
  unfoldable pub validate_interfaces : InterfaceConfig → SegwireResult (Unit {0})
  validate_interfaces c = do
    for_each
        (λ name. or_invalid (lit "interfaces.move_interfaces") name (validate_interface_name name))
        c.move_interfaces
    for_each validate_virtual_interface c.virtual_interfaces
    let all_interfaces = c.move_interfaces ++ virtual_names c.virtual_interfaces
    ensure (length (dedup (sort all_interfaces)) == length all_interfaces)
        (invalid (lit "interfaces") (lit "Duplicate interface names found"))

  -- Route::validate
  abbrev pub is_zero : Option ℕ → Bool
  is_zero none = false
  is_zero (some n) = n == 0

  unfoldable pub validate_route : Route → SegwireResult (Unit {0})
  validate_route route = do
    or_invalid (lit "destination") route.destination (validate_cidr route.destination)
    or_invalid (lit "gateway") route.gateway (validate_ip_address route.gateway)
    ensure (not (is_zero route.metric)) (invalid (lit "metric") (lit "Route metric cannot be zero"))

  abbrev pub refuse_repeat : Option Text → SegwireResult (Unit {0})
  refuse_repeat none = ok tt
  refuse_repeat (some d) =
      err (invalid (lit "routing.routes") (lit "Duplicate route destination: " ++ d))

  -- RoutingConfig::validate
  unfoldable pub validate_routing : RoutingConfig → SegwireResult (Unit {0})
  unfolding for_each_index
  validate_routing c = do
    check_option
        (λ gateway.
          or_invalid (lit "routing.default_gateway") gateway (validate_ip_address gateway))
        c.default_gateway
    for_each_index
        (λ i route. map_err (add_place (indexed (lit "routing.routes") i)) (validate_route route)) 0
        c.routes
    refuse_repeat (first_repeat (sort (map (λ r. r.destination) c.routes)))

  -- DnsConfig::validate
  unfoldable pub validate_dns : DnsConfig → SegwireResult (Unit {0})
  unfolding for_each_index
  validate_dns c = do
    for_each_index
        (λ i server. or_invalid (indexed (lit "dns.servers") i) server (validate_ip_address server))
        0 c.servers
    for_each_index
        (λ i domain. or_invalid (indexed (lit "dns.search") i) domain (validate_domain_name domain))
        0 c.search
    ensure (length (dedup (sort c.servers)) == length c.servers)
        (invalid (lit "dns.servers") (lit "Duplicate DNS servers found"))
    ensure (length (dedup (sort c.search)) == length c.search)
        (invalid (lit "dns.search") (lit "Duplicate search domains found"))

-- WireguardPeerConfig::validate_endpoint
abbrev check_endpoint : Text → Option (Text × Text) → SegwireResult (Unit {0})
check_endpoint endpoint none =
    err (
      invalid (lit "endpoint") (lit "expected host:port format, got '" ++ (endpoint ++ b'\'' ∷ [])))
check_endpoint endpoint (some (host, port_str)) = do
  port ← ok_or (parse_uint 65535 port_str) (
      invalid (lit "endpoint")
        (lit "invalid port '" ++ (port_str ++ (lit "' in endpoint '" ++ (endpoint ++ lit "'")))))
  ensure (not (port == 0)) (invalid (lit "endpoint") (lit "port cannot be 0"))
  ensure (not (is_empty host)) (invalid (lit "endpoint") (lit "host part of endpoint is empty"))

unfoldable pub validate_endpoint : Text → SegwireResult (Unit {0})
validate_endpoint endpoint = check_endpoint endpoint (rsplit_once b':' endpoint)

module _ ⦃u : UnicodeDigits⦄ ⦃b : Base64⦄ where
  -- WireguardConfig::validate_wg_key
  unfoldable pub validate_wg_key : Text → Text → SegwireResult (Unit {0})
  validate_wg_key key field_name = do
    ensure (not (is_empty key)) (config (missing_field field_name))
    decoded ← ok_or (b.decode key) (invalid field_name (lit "invalid base64 encoding"))
    ensure (length decoded == 32) (
        invalid field_name (
          lit "key must be 32 bytes (got "
          ++ (decimal (length decoded) ++ lit " bytes after base64 decode)")))

  -- WireguardPeerConfig::validate
  unfoldable pub validate_peer : WireguardPeerConfig → SegwireResult (Unit {0})
  unfolding validate_wg_key validate_endpoint for_each_index
  validate_peer peer = do
    validate_wg_key peer.public_key (lit "public_key")
    check_option (λ psk. validate_wg_key psk (lit "preshared_key")) peer.preshared_key
    check_option validate_endpoint peer.endpoint
    for_each_index (λ i ip. or_invalid (indexed (lit "allowed_ips") i) ip (validate_cidr ip)) 0
        peer.allowed_ips

  -- WireguardConfig::validate
  unfoldable pub validate_wireguard : WireguardConfig → SegwireResult (Unit {0})
  unfolding for_each_index
  validate_wireguard c = do
    validate_wg_key c.private_key (lit "wireguard.private_key")
    for_each_index
        (λ i peer. map_err (add_place (indexed (lit "wireguard.peers") i)) (validate_peer peer)) 0
        c.peers

  -- NamespaceConfig::validate
  unfoldable pub validate_namespace_config : NamespaceConfig → SegwireResult (Unit {0})
  validate_namespace_config c = do
    validate_namespace_name c.namespace.name
    validate_interfaces c.interfaces
    validate_routing c.routing
    validate_dns c.dns
    check_option validate_wireguard c.wireguard

-- LoggingConfig::validate
unfoldable pub validate_logging : LoggingConfig → SegwireResult (Unit {0})
validate_logging c =
    ensure
      (any (λ t. text_eq t c.level)
        (lit "error" ∷ lit "warn" ∷ lit "info" ∷ lit "debug" ∷ lit "trace" ∷ []))
      (invalid (lit "logging.level") c.level)

-- DaemonConfig::validate; whether a path exists is asked of the file system.
unfoldable pub validate_daemon_config : (Text → Bool) → DaemonConfig → SegwireResult (Unit {0})
validate_daemon_config exists c = do
  validate_namespace_prefix c.daemon.namespace_prefix
  ensure (exists c.daemon.config_dir) (invalid (lit "config_dir") c.daemon.config_dir)
  validate_logging c.daemon.logging
  ensure (contains_char b'.' c.dbus.service_name && not (starts_with_char b'.' c.dbus.service_name))
      (invalid (lit "service_name") c.dbus.service_name)
  ensure (starts_with_char b'/' c.dbus.object_path) (invalid (lit "object_path") c.dbus.object_path)
