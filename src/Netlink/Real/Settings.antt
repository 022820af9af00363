-- ===== src/Netlink/Real/Settings.antt =====
-- Routes and DNS settings of the real backend, of crates/segwire-daemon/src/netlink.rs, and the backend
-- as the interface that the state manager uses.
use segwire.Base.{ℕ, Option, none, some, List, [], ◌∷◌, ◌++◌, ok, if◌then◌else◌}
use segwire.Text.{Text, lit, strip_prefix, is_whitespace}
use segwire.Text.Split.{lines, trim}
use segwire.Error.{SegwireError, network, from_netlink, route_config_failed, dns_config_failed}
use segwire.Utils.Names.{validate_namespace_name}
use segwire.Utils.Address.{UnicodeDigits}
use segwire.Netlink.{Netlink, RouteConfig, ResolverConfig}
use segwire.Netlink.Checks.{validate_route_config, validate_resolver_config}
use segwire.Host.{Host, Action, ◌>>=◌, ◌>>◌, asking, mapping, in_namespace}
use segwire.Rtnl.Routes.{Parsing}
use segwire.Rtnl.Calls.{add_route_fresh, dump_routes_fresh}
use segwire.Netlink.Real.{ns_path_of, check, namespace_there, create_real, delete_real, list_real}
use segwire.Netlink.Real.Devices.{
  move_to_namespace, create_virtual_real, create_wireguard_real, configure_wireguard_real,
  create_veth_real, add_address_real, set_link_up_inside, set_link_up_real,
}

-- One line for each item, with a word in front.
unfoldable pub item_lines : Text → List Text → Text
item_lines word [] = []
item_lines word (item ∷ rest) = word ++ (item ++ (10 ∷ item_lines word rest))

-- join(" ")
unfoldable pub join_spaces : List Text → Text
join_spaces [] = []
join_spaces (d ∷ []) = d
join_spaces (d ∷ e ∷ rest) = d ++ (b' ' ∷ join_spaces (e ∷ rest))

abbrev pub search_line : List Text → Text
search_line [] = []
search_line (d ∷ rest) = lit "search " ++ (join_spaces (d ∷ rest) ++ (10 ∷ []))

-- The content of resolv.conf.
unfoldable pub resolver_text : ResolverConfig → Text
unfolding item_lines join_spaces lit
resolver_text dns =
    item_lines (lit "nameserver ") dns.servers
    ++ (search_line dns.search_domains ++ item_lines (lit "options ") dns.options)

abbrev push_word : Text → List Text → List Text
push_word [] words = words
push_word (c ∷ s) words = (c ∷ s) ∷ words

-- The first word, up to a white space, and the words behind it.
unfoldable pub words_from : Text → Text × List Text
unfolding is_whitespace
words_from [] = ([], [])
words_from (c ∷ s) =
    let (word, words) = words_from s in
    if is_whitespace c then ([], push_word word words) else (c ∷ word, words)

-- str::split_whitespace
unfoldable pub split_whitespace : Text → List Text
unfolding words_from
split_whitespace s = let (word, words) = words_from s in push_word word words

abbrev read_option : Option Text → ResolverConfig → ResolverConfig
read_option none dns = dns
read_option (some opt) dns = record dns { options = dns.options ++ trim opt ∷ [] }

abbrev read_search : Option Text → Text → ResolverConfig → ResolverConfig
read_search (some domains) line dns = record dns { search_domains = split_whitespace domains }
read_search none line dns = read_option (strip_prefix (lit "options ") line) dns

abbrev read_server : Option Text → Text → ResolverConfig → ResolverConfig
read_server (some server) line dns = record dns { servers = dns.servers ++ trim server ∷ [] }
read_server none line dns = read_search (strip_prefix (lit "search ") line) line dns

-- One line of resolv.conf, which has been trimmed.
unfoldable pub read_line : Text → ResolverConfig → ResolverConfig
unfolding strip_prefix split_whitespace trim lit
read_line line dns = read_server (strip_prefix (lit "nameserver ") line) line dns

unfoldable pub read_lines : List Text → ResolverConfig → ResolverConfig
unfolding read_line trim
read_lines [] dns = dns
read_lines (line ∷ rest) dns = read_lines rest (read_line (trim line) dns)

abbrev pub empty_resolver : ResolverConfig
empty_resolver = record { servers = []; search_domains = []; options = [] }

unfoldable pub parse_resolver : Text → ResolverConfig
unfolding lines read_lines
parse_resolver content = read_lines (lines content) empty_resolver

abbrev parse_file : Option Text → ResolverConfig
parse_file none = empty_resolver
parse_file (some content) = parse_resolver content

unfoldable pub netns_etc : Text → Text
unfolding lit
netns_etc name = lit "/etc/netns/" ++ name

unfoldable pub resolv_path : Text → Text
unfolding netns_etc lit
resolv_path name = netns_etc name ++ lit "/resolv.conf"

module _ ⦃u : UnicodeDigits⦄ (std : Parsing) {K : Type 0} (host : Host K) where
  -- add_route_to_namespace
  unfoldable pub add_route_real : Text → RouteConfig → Action K SegwireError (Unit {0})
  unfolding in_namespace ns_path_of add_route_fresh validate_route_config
  add_route_real namespace_name route = do
    check (validate_route_config route)
    in_namespace host network (λ e. from_netlink (route_config_failed namespace_name e))
        (ns_path_of namespace_name) (add_route_fresh std host route)

  abbrev add_routes : Text → List RouteConfig → Action K SegwireError (Unit {0})
  add_routes namespace_name [] = check (ok tt)
  add_routes namespace_name (route ∷ rest) =
      add_route_real namespace_name route >> add_routes namespace_name rest

  -- configure_namespace_routes
  unfoldable pub configure_routes_real : Text → List RouteConfig → Action K SegwireError (Unit {0})
  unfolding add_route_real
  configure_routes_real namespace_name routes = do
    check (validate_namespace_name namespace_name)
    add_routes namespace_name routes

  -- list_namespace_routes
  unfoldable pub list_routes_real : Text → Action K SegwireError (List Text)
  unfolding in_namespace ns_path_of dump_routes_fresh
  list_routes_real namespace_name = do
    check (validate_namespace_name namespace_name)
    namespace_there host namespace_name
    in_namespace host network network (ns_path_of namespace_name) (dump_routes_fresh std host)

  abbrev dns_failed : Text → Text → Text → SegwireError
  dns_failed namespace_name what e = from_netlink (dns_config_failed namespace_name (what ++ e))

  -- configure_namespace_dns
  unfoldable pub configure_dns_real : Text → ResolverConfig → Action K SegwireError (Unit {0})
  unfolding lit
  configure_dns_real namespace_name dns_config = do
    check (validate_namespace_name namespace_name)
    check (validate_resolver_config dns_config)
    namespace_there host namespace_name
    mapping (dns_failed namespace_name (lit "mkdir " ++ (netns_etc namespace_name ++ lit ": ")))
        (host.create_dir_all (netns_etc namespace_name))
    mapping (dns_failed namespace_name (lit "create resolv.conf: "))
        (host.create_file (resolv_path namespace_name))
    mapping (dns_failed namespace_name (lit "write resolv.conf: "))
        (host.write_all (resolv_path namespace_name) (resolver_text dns_config))

  -- get_namespace_dns_config
  unfoldable pub dns_config_real : Text → Action K SegwireError ResolverConfig
  unfolding lit
  dns_config_real namespace_name = do
    check (validate_namespace_name namespace_name)
    namespace_there host namespace_name
    content ← asking (host.read_file (resolv_path namespace_name))
    check (ok (parse_file content))

  -- The real backend as the network of the state manager; the clock is a parameter.
  abbrev pub real_network : (K → ℕ × K) → Netlink K
  real_network now = record {
    now = now;
    list_namespaces = list_real host;
    create_namespace = create_real host;
    delete_namespace = delete_real host;
    create_veth_pair = create_veth_real host;
    move_interface_to_namespace = move_to_namespace host;
    create_wireguard_interface = create_wireguard_real host;
    create_virtual_interface = create_virtual_real host;
    configure_wireguard = configure_wireguard_real host;
    add_address_in_namespace = add_address_real host;
    set_link_up_in_namespace = set_link_up_inside host;
    set_link_up = set_link_up_real host;
    add_route_to_namespace = add_route_real;
    configure_namespace_dns = configure_dns_real;
    parse_ip = std.parse_ip;
  }
