-- ===== src/Netlink/Simulated.antt =====
-- The simulated backend of `NetlinkManager` (crates/segwire-daemon/src/netlink.rs): namespaces are kept
-- in a map, and every other operation succeeds without a trace.
use segwire.Base.{
  ℕ, ◌+◌, ◌%◌, ◌^◌, Bool, true, false, [], ◌++◌, Result, ok, err, ◌≡◌, arith, is_ok, not, ◌&&◌,
  ◌||◌,
}
use segwire.Text.{Text, lit}
use segwire.Text.Equality.{text_eq, text_eq_iff}
use segwire.Map.{Map, insert, remove, contains_key, lookup-insert, lookup-remove}
use segwire.Error.{SegwireResult, from_netlink, namespace_exists, namespace_not_found}
use segwire.Utils.Names.{validate_namespace_name}
use segwire.Netlink.{Netlink, NamespaceInfo, IpAddr, Call}

pub record SimulatedState : Type 0 where
  pub namespaces : Map NamespaceInfo
  pub next_id : ℕ
  -- the reading of the clock, which is no part of the backend
  pub clock : ℕ

-- SimulatedState::new
abbrev pub new_simulated : ℕ → SimulatedState
new_simulated clock = record { namespaces = []; next_id = 1000; clock = clock }

abbrev simulated_info : Text → ℕ → NamespaceInfo
simulated_info name id = record {
  name = name;
  id = id;
  path = lit "/sim/netns/" ++ name;
  active = true;
}

abbrev add_namespace : Text → Bool → Call SimulatedState NamespaceInfo
add_namespace name true st = (err (from_netlink (namespace_exists name)), st)
add_namespace name false st = (
  ok (simulated_info name st.next_id),
  record st {
    namespaces = insert name (simulated_info name st.next_id) st.namespaces;
    next_id = (st.next_id + 1) % 2 ^ 32;
  },
)

abbrev checked :
    {A : Type 0} → SegwireResult (Unit {0}) → Call SimulatedState A → Call SimulatedState A
checked (ok valid) call st = call st
checked (err e) call st = (err e, st)

-- create_namespace
unfoldable pub create_simulated : Text → Call SimulatedState NamespaceInfo
create_simulated name =
    checked (validate_namespace_name name)
      (λ st. add_namespace name (contains_key name st.namespaces) st)

abbrev drop_namespace : Text → Bool → Call SimulatedState (Unit {0})
drop_namespace name false st = (err (from_netlink (namespace_not_found name)), st)
drop_namespace name true st = (ok tt, record st { namespaces = remove name st.namespaces })

-- delete_namespace
unfoldable pub delete_simulated : Text → Call SimulatedState (Unit {0})
delete_simulated name =
    checked (validate_namespace_name name)
      (λ st. drop_namespace name (contains_key name st.namespaces) st)

-- list_namespaces
unfoldable pub list_simulated : Call SimulatedState (Map NamespaceInfo)
list_simulated st = (ok st.namespaces, st)

-- The operations of which the simulation keeps no trace.
abbrev no_trace : Call SimulatedState (Unit {0})
no_trace st = (ok tt, st)

abbrev pub simulated : (Text → Result Text IpAddr) → Netlink SimulatedState
simulated parse_ip = record {
  now = λ st. (st.clock, st);
  list_namespaces = list_simulated;
  create_namespace = create_simulated;
  delete_namespace = delete_simulated;
  create_veth_pair = λ a b. no_trace;
  move_interface_to_namespace = λ a b. no_trace;
  create_wireguard_interface = λ a b. no_trace;
  create_virtual_interface = λ a b c. no_trace;
  configure_wireguard = λ a b c. no_trace;
  add_address_in_namespace = λ a b c d. no_trace;
  set_link_up_in_namespace = λ a b. no_trace;
  set_link_up = λ a. no_trace;
  add_route_to_namespace = λ a b. no_trace;
  configure_namespace_dns = λ a b. no_trace;
  parse_ip = parse_ip;
}

abbrev pub present : Text → SimulatedState → Bool
present name st = contains_key name st.namespaces

-- A creation succeeds exactly for a valid name that is not there yet, and puts in that name alone; one
-- that fails changes nothing.
pub create_simulated_lem :
    (name other : Text) (st : SimulatedState)
    → (is_ok (create_simulated name st).0
        ≡ (is_ok (validate_namespace_name name) && not (present name st)))
      × (present other (create_simulated name st).1
          ≡ (present other st || (text_eq name other && is_ok (create_simulated name st).0)))
unfolding create_simulated
create_simulated_lem name other st = ground (
  arith,
  lookup-insert name other (simulated_info name st.next_id) st.namespaces,
  text_eq_iff name other,
)

-- A deletion succeeds exactly for a valid name that is there, and takes out that name alone.
pub delete_simulated_lem :
    (name other : Text) (st : SimulatedState)
    → (is_ok (delete_simulated name st).0
        ≡ (is_ok (validate_namespace_name name) && present name st))
      × (present other (delete_simulated name st).1
          ≡ (present other st && not (text_eq name other && is_ok (delete_simulated name st).0)))
unfolding delete_simulated
delete_simulated_lem name other st =
    ground (arith, lookup-remove name other st.namespaces, text_eq_iff name other)
