-- ===== src/Wireguard.antt =====
-- crates/segwire-common/src/wireguard.rs: the parser of wg-quick files, one line after the other, and
-- the configuration that it makes.
pub mod Peers
pub mod Device
pub mod Accepted
use segwire.Base.{
  ℕ, Bool, true, false, not, ◌&&◌, ◌||◌, Option, none, some, List, [], ◌∷◌, ◌++◌, map, ◌==◌,
  if◌then◌else◌, Result, ok, err, ensure, ok_or, ◌>>=◌, ◌>>◌,
}
use segwire.Text.{Text, lit, is_empty, starts_with_char, ends_with_char}
use segwire.Text.Equality.{text_eq}
use segwire.Text.Split.{split, split_once, trim, lines}
use segwire.Text.Numbers.{parse_uint}
use segwire.Config.{NamespaceConfig, WireguardConfig, WireguardPeerConfig}

pub data WgParseError : Type 0 where
  missing_interface missing_private_key : WgParseError
  invalid_line unknown_section : Text → WgParseError
  -- `unwrap` of `None`: no value of the source's type, but a panic
  panicked : WgParseError

pub record WgQuickPeer : Type 0 where
  pub public_key : Text
  pub preshared_key : Option Text
  pub endpoint : Option Text
  pub allowed_ips : List Text
  pub persistent_keepalive : ℕ

pub record WgQuickConfig : Type 0 where
  pub private_key : Text
  pub listen_port : ℕ
  pub addresses : List Text
  pub dns_servers : List Text
  pub fwmark : ℕ
  pub peers : List WgQuickPeer

pub data Section : Type 0 where
  interface_section peer_section : Section

-- The variables of the loop.
pub record Parser : Type 0 where
  pub config : WgQuickConfig
  pub current_section : Option Section
  pub current_peer : Option WgQuickPeer

abbrev pub default_peer : WgQuickPeer
default_peer = record {
  public_key = [];
  preshared_key = none;
  endpoint = none;
  allowed_ips = [];
  persistent_keepalive = 0;
}

abbrev pub start : Parser
start = record {
  config = record {
    private_key = [];
    listen_port = 0;
    addresses = [];
    dns_servers = [];
    fwmark = 0;
    peers = [];
  };
  current_section = none;
  current_peer = none;
}

-- `if let Some(peer) = current_peer.take() { config.peers.push(peer) }`
abbrev flush_peer : Option WgQuickPeer → Parser → Parser
flush_peer none p = p
flush_peer (some peer) p = record p {
  config = record p.config { peers = p.config.peers ++ peer ∷ [] };
  current_peer = none;
}

unfoldable pub flush : Parser → Parser
flush p = flush_peer p.current_peer p

unfoldable pub open_section : Text → Parser → Result WgParseError Parser
open_section section p =
    if text_eq section (lit "Interface")
    then ok (record p { current_section = some interface_section })
    else if text_eq section (lit "Peer")
    then ok (record p { current_section = some peer_section; current_peer = some default_peer })
    else err (unknown_section section)

-- value.split(',') with each piece trimmed
unfoldable pub pieces_of : Text → List Text
unfolding trim split
pieces_of value = map trim (split b',' value)

abbrev u16_max : ℕ
u16_max = 65535

abbrev u32_max : ℕ
u32_max = 4294967295

unfoldable pub interface_key :
    Text → Text → Text → WgQuickConfig → Result WgParseError WgQuickConfig
unfolding pieces_of
interface_key line key value c =
    if text_eq key (lit "PrivateKey")
    then ok (record c { private_key = value })
    else if text_eq key (lit "ListenPort")
    then (do
      port ← ok_or (parse_uint u16_max value) (invalid_line line)
      ok (record c { listen_port = port }))
    else if text_eq key (lit "Address")
    then ok (record c { addresses = c.addresses ++ pieces_of value })
    else if text_eq key (lit "DNS")
    then ok (record c { dns_servers = c.dns_servers ++ pieces_of value })
    else if text_eq key (lit "FwMark")
    then (do
      mark ← ok_or (parse_uint u32_max value) (invalid_line line)
      ok (record c { fwmark = mark }))
    else ok c

unfoldable pub peer_key : Text → Text → Text → WgQuickPeer → Result WgParseError WgQuickPeer
unfolding pieces_of
peer_key line key value peer =
    if text_eq key (lit "PublicKey")
    then ok (record peer { public_key = value })
    else if text_eq key (lit "PresharedKey")
    then ok (record peer { preshared_key = some value })
    else if text_eq key (lit "Endpoint")
    then ok (record peer { endpoint = some value })
    else if text_eq key (lit "AllowedIPs")
    then ok (record peer { allowed_ips = peer.allowed_ips ++ pieces_of value })
    else if text_eq key (lit "PersistentKeepalive")
    then (do
      seconds ← ok_or (parse_uint u16_max value) (invalid_line line)
      ok (record peer { persistent_keepalive = seconds }))
    else ok peer

abbrev assign_peer : Text → Text → Text → Option WgQuickPeer → Parser → Result WgParseError Parser
assign_peer line key value none p = err panicked
assign_peer line key value (some peer) p = do
  changed ← peer_key line key value peer
  ok (record p { current_peer = some changed })

-- A line `key = value` in the section it stands in; outside of any section it is ignored.
abbrev assign_in : Option Section → Text → Text → Text → Parser → Result WgParseError Parser
assign_in none line key value p = ok p
assign_in (some interface_section) line key value p = do
  changed ← interface_key line key value p.config
  ok (record p { config = changed })
assign_in (some peer_section) line key value p = assign_peer line key value p.current_peer p

-- &line[1..line.len() - 1]
unfoldable pub without_last : Text → Text
without_last [] = []
without_last (c ∷ []) = []
without_last (c ∷ d ∷ s) = c ∷ without_last (d ∷ s)

abbrev tail : Text → Text
tail [] = []
tail (c ∷ s) = s

abbrev pub section_name : Text → Text
section_name line = without_last (tail line)

abbrev pub is_skipped : Text → Bool
is_skipped line = is_empty line || starts_with_char b'#' line || starts_with_char b';' line

abbrev pub is_header : Text → Bool
is_header line = starts_with_char b'[' line && ends_with_char b']' line

abbrev parse_assignment : Option (Text × Text) → Text → Parser → Result WgParseError Parser
parse_assignment none line p = err (invalid_line line)
parse_assignment (some (key, value)) line p =
    assign_in p.current_section line (trim key) (trim value) p

-- One round of the loop, on a trimmed line.
unfoldable pub parse_line : Text → Parser → Result WgParseError Parser
unfolding flush open_section interface_key peer_key
parse_line line p =
    if is_skipped line
    then ok p
    else if is_header line
    then open_section (section_name line) (flush p)
    else parse_assignment (split_once b'=' line) line p

unfoldable pub parse_lines : List Text → Parser → Result WgParseError Parser
unfolding parse_line trim
parse_lines [] p = ok p
parse_lines (l ∷ ls) p = do next ← parse_line (trim l) p; parse_lines ls next

unfoldable pub parse_wg_quick_raw : Text → Result WgParseError WgQuickConfig
unfolding parse_lines lines flush
parse_wg_quick_raw content = do
  p ← parse_lines (lines content) start
  ensure (not (is_empty (flush p).config.private_key)) missing_private_key
  ok (flush p).config

abbrev pub to_peer : WgQuickPeer → WireguardPeerConfig
to_peer p = record {
  public_key = p.public_key;
  preshared_key = p.preshared_key;
  endpoint = p.endpoint;
  allowed_ips = p.allowed_ips;
  persistent_keepalive = p.persistent_keepalive;
}

abbrev interface_name : Option Text → Text
interface_name none = lit "wg0"
interface_name (some name) = name

abbrev pub to_config : Text → Option Text → WgQuickConfig → NamespaceConfig
to_config namespace_name wg_interface_name c = record {
  namespace = record {
    name = namespace_name;
    description = lit "WireGuard namespace (imported from wg-quick config)";
  };
  interfaces = record {
    move_interfaces = [];
    virtual_interfaces =
        (record {
          name = interface_name wg_interface_name;
          interface_type = lit "wireguard";
          peer = none;
          addresses = c.addresses;
        })
        ∷ [];
  };
  routing = record { default_gateway = none; routes = [] };
  dns = record { servers = c.dns_servers; search = [] };
  wireguard = some (record {
    private_key = c.private_key;
    listen_port = c.listen_port;
    fwmark = c.fwmark;
    peers = map to_peer c.peers;
  });
  environment = [];
}

unfoldable pub parse_wg_quick : Text → Text → Option Text → Result WgParseError NamespaceConfig
unfolding parse_wg_quick_raw
parse_wg_quick content namespace_name wg_interface_name = do
  c ← parse_wg_quick_raw content
  ok (to_config namespace_name wg_interface_name c)
