-- ===== src/Config/Substitute.antt =====
-- `NamespaceConfig::substitute_environment_variables` (config.rs). On an error the source leaves the
-- fields before it changed; its one caller then drops the value, so the model returns the error alone.
use segwire.Base.{Option, none, some, ok, try_map, ◌>>=◌}
use segwire.Text.{Text}
use segwire.Error.{SegwireResult}
use segwire.Utils.Substitute.{substitute_env_vars}
use segwire.Config.{NamespaceConfig, VirtualInterface, Route, WireguardConfig, WireguardPeerConfig}

abbrev try_option : {A : Type 0} → (A → SegwireResult A) → Option A → SegwireResult (Option A)
try_option f none = ok none
try_option f (some a) = do b ← f a; ok (some b)

-- `f` is the substitution by the configuration's own environment and that of the process.
module _ (f : Text → SegwireResult Text) where
  unfoldable pub substitute_interface : VirtualInterface → SegwireResult VirtualInterface
  unfolding try_map
  substitute_interface vif = do
    name ← f vif.name
    interface_type ← f vif.interface_type
    peer ← try_option f vif.peer
    addresses ← try_map f vif.addresses
    ok (record { name = name; interface_type = interface_type; peer = peer; addresses = addresses })

  unfoldable pub substitute_route : Route → SegwireResult Route
  substitute_route route = do
    destination ← f route.destination
    gateway ← f route.gateway
    ok (record { destination = destination; gateway = gateway; metric = route.metric })

  unfoldable pub substitute_peer : WireguardPeerConfig → SegwireResult WireguardPeerConfig
  unfolding try_map
  substitute_peer peer = do
    public_key ← f peer.public_key
    preshared_key ← try_option f peer.preshared_key
    endpoint ← try_option f peer.endpoint
    allowed_ips ← try_map f peer.allowed_ips
    ok (record {
      public_key = public_key;
      preshared_key = preshared_key;
      endpoint = endpoint;
      allowed_ips = allowed_ips;
      persistent_keepalive = peer.persistent_keepalive;
    })

  unfoldable pub substitute_wireguard : WireguardConfig → SegwireResult WireguardConfig
  unfolding try_map substitute_peer
  substitute_wireguard wg = do
    private_key ← f wg.private_key
    peers ← try_map substitute_peer wg.peers
    ok (record {
      private_key = private_key;
      listen_port = wg.listen_port;
      fwmark = wg.fwmark;
      peers = peers;
    })

  unfoldable pub substitute_config : NamespaceConfig → SegwireResult NamespaceConfig
  unfolding try_map substitute_interface substitute_route substitute_wireguard
  substitute_config c = do
    name ← f c.namespace.name
    description ← f c.namespace.description
    move_interfaces ← try_map f c.interfaces.move_interfaces
    virtual_interfaces ← try_map substitute_interface c.interfaces.virtual_interfaces
    default_gateway ← try_option f c.routing.default_gateway
    routes ← try_map substitute_route c.routing.routes
    servers ← try_map f c.dns.servers
    search_domains ← try_map f c.dns.search
    wireguard ← try_option substitute_wireguard c.wireguard
    ok (record {
      namespace = record { name = name; description = description };
      interfaces = record {
        move_interfaces = move_interfaces;
        virtual_interfaces = virtual_interfaces;
      };
      routing = record { default_gateway = default_gateway; routes = routes };
      dns = record { servers = servers; search = search_domains };
      wireguard = wireguard;
      environment = c.environment;
    })

unfoldable pub substitute_environment_variables :
    (Text → Option Text) → NamespaceConfig → SegwireResult NamespaceConfig
unfolding substitute_config
substitute_environment_variables system_env c =
    substitute_config (substitute_env_vars system_env c.environment) c
