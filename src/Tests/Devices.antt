-- ===== src/Tests/Devices.antt =====
-- A route and a WireGuard device.
use segwire.Base.{
  true, false, none, some, [], ◌∷◌, ok, err, is_ok, All, for_each, try_map, ◌≡◌, ◌↔◌, refl,
}
use segwire.Text.{lit}
use segwire.Text.Numbers.{parse_uint}
use segwire.Text.Split.{split, rsplit_once}
use segwire.Netlink.{v4}
use segwire.Utils.Address.{validate_cidr, validate_ip_address, check_octet}
use segwire.Regex.{is_match}
use segwire.Config.{WireguardConfig, WireguardPeerConfig}
use segwire.Config.Validate.{Base64, validate_wireguard, validate_wg_key, validate_peer}
use segwire.Wireguard.Device.{DeviceParsing, build_device, build_wireguard_peer}
use segwire.Wireguard.Accepted.{IsKnownPeer, build_device-is_ok}
use segwire.Wire.{zeros}
use segwire.Tests.Data.{ascii_digits}

-- A decoder that takes every text for a key.
instance abbrev any_base64 : Base64
any_base64 = record { decode = λ key. some (zeros 32) }

-- Names of hosts are no socket addresses.
abbrev device_std : DeviceParsing
device_std = record {
  parse_ip = λ s. ok (v4 1);
  parse_socket_addr = λ s. err (lit "invalid socket address syntax");
  decode_error = λ s. [];
  number_error = λ s. [];
}

abbrev home : WireguardPeerConfig
home = record {
  public_key = lit "p=";
  preshared_key = none;
  endpoint = some (lit "home.example:51820");
  allowed_ips = lit "10.0.0.0/8" ∷ [];
  persistent_keepalive = 25;
}

abbrev device : WireguardConfig
device = record { private_key = lit "k="; listen_port = 0; fwmark = 0; peers = home ∷ [] }

device-accepted : validate_wireguard device ≡ ok tt
unfolding validate_wireguard lit zeros split rsplit_once parse_uint validate_wg_key validate_peer
    validate_cidr validate_ip_address is_match for_each check_octet
device-accepted = refl

build_device-is_ok_example :
    (is_ok (build_device device_std (lit "wg0") device) ≡ true)
    ↔ All (IsKnownPeer device_std) device.peers
build_device-is_ok_example = build_device-is_ok device_std (lit "wg0") device device-accepted

-- The name of a host is refused where the device is made.
device-refused : is_ok (build_device device_std (lit "wg0") device) ≡ false
unfolding build_device lit zeros try_map build_wireguard_peer
device-refused = refl
