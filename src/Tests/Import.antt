-- ===== src/Tests/Import.antt =====
-- The import of a wg-quick file.
use segwire.Base.{false, none, some, [], ◌∷◌, ok, ◌≡◌, refl, length}
use segwire.Text.{Text, lit, is_empty, ends_with_char}
use segwire.Text.Equality.{text_eq}
use segwire.Text.Split.{lines, split_once}
use segwire.Config.{NamespaceConfig, WireguardConfig}
use segwire.Wireguard.{parse_wg_quick, to_config, default_peer, without_last}
use segwire.Wireguard.Peers.{parse_wg_quick-peers, peer_headers}

abbrev file : Text
file =
    lit "# home\n[Interface]\nPrivateKey = k==\nAddress = 10.0.0.1/24\n\n[Peer]\nPublicKey = p=\n"

abbrev imported : NamespaceConfig
imported = to_config (lit "home") none (record {
  private_key = lit "k==";
  listen_port = 0;
  addresses = lit "10.0.0.1/24" ∷ [];
  dns_servers = [];
  fwmark = 0;
  peers = (record default_peer { public_key = lit "p=" }) ∷ [];
})

file-imported : parse_wg_quick file (lit "home") none ≡ ok imported
unfolding parse_wg_quick lit ends_with_char text_eq without_last split_once
file-imported = refl

parse_wg_quick-peers_example :
    (wg : WireguardConfig) × (imported.wireguard ≡ some wg)
    × (length wg.peers ≡ peer_headers (lines file))
    × (is_empty wg.private_key ≡ false)
parse_wg_quick-peers_example = parse_wg_quick-peers file (lit "home") none imported file-imported
