-- ===== src/Netlink/Checks.antt =====
-- `RouteConfig::validate` and `DnsConfig::validate` of crates/segwire-common/src/netlink.rs, which the
-- network makes before it applies a route or a resolver, and what a checked configuration asks of it.
use segwire.Base.{
  subst, Bool, true, false, not, Option, none, some, List, [], ◌∷◌, ok, ensure, for_each, ◌>>◌, ◌≡◌,
  refl, arith, if◌then◌else◌, All,
}
use segwire.Text.{Text, lit, is_empty}
use segwire.Text.Equality.{text_eq}
use segwire.Text.Split.{split}
use segwire.Error.{SegwireResult, from_netlink, invalid_route, invalid_dns}
use segwire.Utils.Names.{validate_interface_name}
use segwire.Utils.Address.{UnicodeDigits, validate_ip_address, validate_cidr, validate_cidr_parts}
use segwire.Utils.Domain.{validate_domain_name}
use segwire.Config.{Route, RoutingConfig, DnsConfig}
use segwire.Config.Validate.{validate_routing, validate_dns}
use segwire.Config.Laws.{IsGateway, IsRoute, validate_routing_iff, validate_dns_iff, for_each_iff}
use segwire.Netlink.{RouteConfig, ResolverConfig}

abbrev check_interface : Option Text → SegwireResult (Unit {0})
check_interface none = ok tt
check_interface (some iface) = validate_interface_name iface

abbrev no_servers : List Text → Bool
no_servers [] = true
no_servers (s ∷ rest) = false

module _ ⦃u : UnicodeDigits⦄ where
  unfoldable pub validate_route_config : RouteConfig → SegwireResult (Unit {0})
  validate_route_config route = do
    ensure (not (is_empty route.destination))
        (from_netlink (invalid_route (lit "destination cannot be empty")))
    (if text_eq route.destination (lit "default") then ok tt else validate_cidr route.destination)
    validate_ip_address route.gateway
    check_interface route.interface

  unfoldable pub validate_resolver_config : ResolverConfig → SegwireResult (Unit {0})
  validate_resolver_config dns = do
    ensure (not (no_servers dns.servers))
        (from_netlink (invalid_dns (lit "at least one DNS server required")))
    for_each validate_ip_address dns.servers
    for_each validate_domain_name dns.search_domains

  -- What the state manager makes of a configured route, of a default gateway and of the DNS settings.
  abbrev pub route_config : Route → RouteConfig
  route_config route = record {
    destination = route.destination;
    gateway = route.gateway;
    interface = none;
    metric = route.metric;
  }

  abbrev pub default_route : Text → RouteConfig
  default_route gateway = record {
    destination = lit "default";
    gateway = gateway;
    interface = none;
    metric = none;
  }

  cidr_empty :
      (destination : Text) → validate_cidr destination ≡ ok tt → is_empty destination ≡ false
  unfolding validate_cidr validate_cidr_parts split
  cidr_empty [] h = absurd (cc)
  cidr_empty (c ∷ s) h = refl

  validate_route_config-IsRoute :
      (route : Route) → IsRoute route → validate_route_config (route_config route) ≡ ok tt
  unfolding validate_route_config
  validate_route_config-IsRoute route (destination, gateway, metric) =
      ground (arith, cidr_empty route.destination destination)

  All-routes :
      (routes : List Route)
      → All IsRoute routes
      → All (λ route. validate_route_config (route_config route) ≡ ok tt) routes
  All-routes [] h = tt
  All-routes (route ∷ routes) (r, h) = (validate_route_config-IsRoute route r, All-routes routes h)

  -- The network refuses no route of a routing configuration that has been checked.
  pub validate_routing-route_config :
      (c : RoutingConfig)
      → validate_routing c ≡ ok tt
      → All (λ route. validate_route_config (route_config route) ≡ ok tt) c.routes
  validate_routing-route_config c v =
      let (gateway, routes, distinct) = (validate_routing_iff c).0 v in All-routes c.routes routes

  -- The network refuses no default gateway of a routing configuration that has been checked.
  pub validate_routing-default_route :
      (c : RoutingConfig) (gateway : Text)
      → validate_routing c ≡ ok tt
      → c.default_gateway ≡ some gateway
      → validate_route_config (default_route gateway) ≡ ok tt
  unfolding validate_route_config lit text_eq
  validate_routing-default_route c gateway v has =
      let (valid, routes, distinct) = (validate_routing_iff c).0 v in
      let valid' : validate_ip_address gateway ≡ ok tt = subst IsGateway has valid in ground arith

  -- The network refuses no DNS settings that have been checked, if they name a server.
  pub validate_dns-resolver_config :
      (c : DnsConfig) (server : Text) (rest options : List Text)
      → validate_dns c ≡ ok tt
      → c.servers ≡ server ∷ rest
      → validate_resolver_config
          (record { servers = c.servers; search_domains = c.search; options = options })
        ≡ ok tt
  unfolding validate_resolver_config
  validate_dns-resolver_config c server rest options v has =
      let (servers, domains, _, _) = (validate_dns_iff c).0 v in
      ground (
        arith,
        for_each_iff (λ s. validate_ip_address s ≡ ok tt) validate_ip_address c.servers
            (λ s. ((λ h. h), (λ h. h))),
        for_each_iff (λ d. validate_domain_name d ≡ ok tt) validate_domain_name c.search
            (λ d. ((λ h. h), (λ h. h))),
      )
