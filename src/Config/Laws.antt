-- ===== src/Config/Laws.antt =====
-- What the `validate` methods accept, said without the order of the checks and without sorting.
use segwire.Base.{
  ℕ, ◌≤◌, ◌+◌, Bool, true, false, not, ◌&&◌, Option, none, some, List, [], ◌∷◌, ◌++◌, map, ◌≡◌,
  refl, ◌↔◌, arith, All, length, all, ok, err, for_each, map_err, ensure, ◌>>◌, any, ◌≢◌,
}
use segwire.Text.{Text, lit}
use segwire.Text.Equality.{text_eq, text_eq_iff}
use segwire.Sorting.Duplicates.{all_distinct, length-dedup-sort, first_repeat-sort}
use segwire.Error.{SegwireResult, SegwireError}
use segwire.Utils.Names.{validate_interface_name, is_interface_char}
use segwire.Utils.Names.Validity.{validate_interface_name_iff}
use segwire.Utils.Address.{UnicodeDigits, validate_ip_address, validate_cidr}
use segwire.Utils.Domain.{validate_domain_name}
use segwire.Config.{VirtualInterface, InterfaceConfig, Route, RoutingConfig, DnsConfig}
use segwire.Config.Validate.{
  or_invalid, for_each_index, check_option, valid_types, check_peer, refuse_repeat, is_none,
  validate_virtual_interface, virtual_names, validate_interfaces, validate_route, validate_routing,
  validate_dns, is_zero, indexed, add_place,
}

-- A name that Linux takes for an interface.
abbrev pub IsInterfaceName : Text → Type 0
IsInterfaceName name = (1 ≤ length name) × (length name ≤ 15) × (all is_interface_char name ≡ true)

pub bind_iff : (m k : SegwireResult (Unit {0})) → (m >> k ≡ ok tt) ↔ ((m ≡ ok tt) × (k ≡ ok tt))
bind_iff (ok tt) k = ((λ h. (refl, h)), (λ (_, h). h))
bind_iff (err e) k = ((λ h. absurd (cc)), (λ (h, _). absurd (cc)))

-- Two checks, one behind the other.
both_iff {ℓ κ} :
    {P : Type ℓ} {Q : Type κ} (m k : SegwireResult (Unit {0}))
    → ((m ≡ ok tt) ↔ P)
    → ((k ≡ ok tt) ↔ Q)
    → (m >> k ≡ ok tt) ↔ (P × Q)
both_iff m k (to, from) (to', from') =
    let (split, join) = bind_iff m k in
    ((λ h. (to (split h).0, to' (split h).1)), (λ (p, q). join (from p, from' q)))

pub map_err_iff :
    (f : SegwireError → SegwireError) (m : SegwireResult (Unit {0}))
    → (map_err f m ≡ ok tt) ↔ (m ≡ ok tt)
map_err_iff f (ok tt) = ((λ _. refl), (λ _. refl))
map_err_iff f (err e) = ((λ h. absurd (cc)), (λ h. absurd (cc)))

-- A loop of checks accepts a list exactly if it accepts every element.
pub for_each_iff {ℓ κ} :
    {A : Type ℓ} (P : A → Type κ) (f : A → SegwireResult (Unit {0})) (xs : List A)
    → ((x : A) → (f x ≡ ok tt) ↔ P x)
    → (for_each f xs ≡ ok tt) ↔ All P xs
unfolding for_each
for_each_iff P f [] h = ((λ _. tt), (λ _. refl))
for_each_iff P f (x ∷ xs) h =
    let (there, back) = for_each_iff P f xs h in
    let (to, from) = h x in
    let (split, join) = bind_iff (f x) (for_each f xs) in
    ((λ e. (to (split e).0, there (split e).1)), (λ (p, ps). join (from p, back ps)))

pub for_each_index_iff {ℓ κ} :
    {A : Type ℓ} (P : A → Type κ) (f : ℕ → A → SegwireResult (Unit {0})) (i : ℕ) (xs : List A)
    → ((j : ℕ) (x : A) → (f j x ≡ ok tt) ↔ P x)
    → (for_each_index f i xs ≡ ok tt) ↔ All P xs
unfolding for_each_index
for_each_index_iff P f i [] h = ((λ _. tt), (λ _. refl))
for_each_index_iff P f i (x ∷ xs) h =
    let (there, back) = for_each_index_iff P f (i + 1) xs h in
    let (to, from) = h i x in
    let (split, join) = bind_iff (f i x) (for_each_index f (i + 1) xs) in
    ((λ e. (to (split e).0, there (split e).1)), (λ (p, ps). join (from p, back ps)))

pub ensure_iff : (b : Bool) (e : SegwireError) → (ensure b e ≡ ok tt) ↔ (b ≡ true)
ensure_iff true e = ((λ _. refl), (λ _. refl))
ensure_iff false e = ((λ h. absurd (cc)), (λ h. absurd (cc)))

module _ ⦃u : UnicodeDigits⦄ where
  -- A peer is another interface's name.
  abbrev IsPeerOf : Text → Option Text → Type 0
  IsPeerOf name none = Unit
  IsPeerOf name (some peer) = IsInterfaceName peer × (peer ≢ name)

  check_peer_iff :
      (name : Text) (peer : Option Text)
      → (check_option (check_peer name) peer ≡ ok tt) ↔ IsPeerOf name peer
  unfolding check_peer
  check_peer_iff name none = ((λ _. tt), (λ _. refl))
  check_peer_iff name (some peer) = (
    λ h. ground (arith, validate_interface_name_iff peer, text_eq_iff peer name),
    λ (p, differs). ground (arith, validate_interface_name_iff peer, text_eq_iff peer name),
  )

  -- A virtual interface: its name, a known type, a peer that a veth pair must have, and its
  -- addresses.
  abbrev pub IsVirtualInterface : VirtualInterface → Type 0
  IsVirtualInterface vif =
      IsInterfaceName vif.name
      × (any (λ t. text_eq t vif.interface_type) valid_types ≡ true)
      × IsPeerOf vif.name vif.peer
      × ((text_eq vif.interface_type (lit "veth") && is_none vif.peer) ≡ false)
      × All (λ addr. validate_cidr addr ≡ ok tt) vif.addresses

  name_iff :
      (field name : Text)
      → (or_invalid field name (validate_interface_name name) ≡ ok tt) ↔ IsInterfaceName name
  name_iff field name = (
    λ h. (validate_interface_name_iff name).0 ((map_err_iff _ _).0 h),
    λ h. (map_err_iff _ _).1 ((validate_interface_name_iff name).1 h),
  )

  refuse_iff : (b : Bool) (e : SegwireError) → (ensure (not b) e ≡ ok tt) ↔ (b ≡ false)
  refuse_iff true e = ((λ h. absurd (cc)), (λ h. absurd (cc)))
  refuse_iff false e = ((λ _. refl), (λ _. refl))

  validate_virtual_interface_iff :
      (vif : VirtualInterface) → (validate_virtual_interface vif ≡ ok tt) ↔ IsVirtualInterface vif
  unfolding validate_virtual_interface
  validate_virtual_interface_iff vif =
      let names = name_iff (lit "interfaces.virtual.name") vif.name in
      let peers = check_peer_iff vif.name vif.peer in
      let addresses =
        for_each_index_iff (λ addr. validate_cidr addr ≡ ok tt)
          (λ i addr.
            or_invalid (indexed (lit "interfaces.virtual.addresses") i) addr (validate_cidr addr))
          0 vif.addresses (λ i addr. map_err_iff _ _) in
      (λ h. ground arith, λ h. ground arith)

  -- The interfaces of a configuration are accepted exactly if every name is one that Linux takes,
  -- every virtual interface is well-formed, and no name occurs twice among the moved interfaces, the
  -- virtual ones and their peers.
  pub validate_interfaces_iff :
      (c : InterfaceConfig)
      → (validate_interfaces c ≡ ok tt) ↔ (
          All IsInterfaceName c.move_interfaces
          × All IsVirtualInterface c.virtual_interfaces
          × (all_distinct (c.move_interfaces ++ virtual_names c.virtual_interfaces) ≡ true))
  unfolding validate_interfaces
  validate_interfaces_iff c =
      let moved =
        for_each_iff IsInterfaceName
          (λ name.
            or_invalid (lit "interfaces.move_interfaces") name (validate_interface_name name))
          c.move_interfaces (λ name. name_iff _ name) in
      let virtual =
        for_each_iff IsVirtualInterface validate_virtual_interface c.virtual_interfaces
          validate_virtual_interface_iff in
      let distinct = length-dedup-sort (c.move_interfaces ++ virtual_names c.virtual_interfaces) in
      (λ h. ground arith, λ h. ground arith)

  refuse_repeat_iff : (o : Option Text) → (refuse_repeat o ≡ ok tt) ↔ (o ≡ none)
  refuse_repeat_iff none = ((λ _. refl), (λ _. refl))
  refuse_repeat_iff (some d) = ((λ h. absurd (cc)), (λ h. absurd (cc)))

  -- A route: a destination in CIDR notation, a gateway, and a metric that is not 0.
  abbrev pub IsRoute : Route → Type 0
  IsRoute route =
      (validate_cidr route.destination ≡ ok tt)
      × (validate_ip_address route.gateway ≡ ok tt)
      × (is_zero route.metric ≡ false)

  validate_route_iff : (route : Route) → (validate_route route ≡ ok tt) ↔ IsRoute route
  unfolding validate_route
  validate_route_iff route = (λ h. ground arith, λ h. ground arith)

  abbrev pub IsGateway : Option Text → Type 0
  IsGateway none = Unit
  IsGateway (some gateway) = validate_ip_address gateway ≡ ok tt

  IsGateway-iff :
      (field : Text) (o : Option Text)
      → (check_option (λ g. or_invalid field g (validate_ip_address g)) o ≡ ok tt) ↔ IsGateway o
  IsGateway-iff field none = ((λ _. tt), (λ _. refl))
  IsGateway-iff field (some g) = map_err_iff _ _

  -- The routing of a configuration is accepted exactly if its default gateway is an address, every
  -- route is well-formed, and no two routes have the same destination.
  pub validate_routing_iff :
      (c : RoutingConfig)
      → (validate_routing c ≡ ok tt) ↔ (
          IsGateway c.default_gateway
          × All IsRoute c.routes
          × (all_distinct (map (λ r. r.destination) c.routes) ≡ true))
  unfolding validate_routing
  validate_routing_iff c =
      let gateway = IsGateway-iff (lit "routing.default_gateway") c.default_gateway in
      let routes =
        for_each_index_iff IsRoute
          (λ i route. map_err (add_place (indexed (lit "routing.routes") i)) (validate_route route))
          0 c.routes
          (λ i route. (
            λ h. (validate_route_iff route).0 ((map_err_iff _ _).0 h),
            λ h. (map_err_iff _ _).1 ((validate_route_iff route).1 h),
          )) in
      let distinct = first_repeat-sort (map (λ r. r.destination) c.routes) in
      (λ h. ground arith, λ h. ground arith)

  -- The DNS settings are accepted exactly if every server is an address, every search domain is a
  -- domain name, and neither list repeats an element.
  pub validate_dns_iff :
      (c : DnsConfig)
      → (validate_dns c ≡ ok tt) ↔ (
          All (λ s. validate_ip_address s ≡ ok tt) c.servers
          × All (λ d. validate_domain_name d ≡ ok tt) c.search
          × (all_distinct c.servers ≡ true)
          × (all_distinct c.search ≡ true))
  unfolding validate_dns
  validate_dns_iff c =
      let servers =
        for_each_index_iff (λ s. validate_ip_address s ≡ ok tt)
          (λ i s. or_invalid (indexed (lit "dns.servers") i) s (validate_ip_address s)) 0 c.servers
          (λ i s. map_err_iff _ _) in
      let domains =
        for_each_index_iff (λ d. validate_domain_name d ≡ ok tt)
          (λ i d. or_invalid (indexed (lit "dns.search") i) d (validate_domain_name d)) 0 c.search
          (λ i d. map_err_iff _ _) in
      let distinct = length-dedup-sort c.servers in
      let distinct' = length-dedup-sort c.search in (λ h. ground arith, λ h. ground arith)
