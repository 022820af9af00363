-- ===== src/Tests/State.antt =====
-- The state manager over the simulated network.
use segwire.Base.{
  true, false, ◌&&◌, ◌||◌, none, some, [], ◌∷◌, ok, err, refl, ◌≡◌, is_ok, if◌then◌else◌,
}
use segwire.Text.{lit, byte_len}
use segwire.Regex.{is_match}
use segwire.Text.Equality.{text_eq}
use segwire.Map.{lookup, contains_key, keys}
use segwire.Error.{validation}
use segwire.Utils.Names.{validate_namespace_name}
use segwire.NamespaceState.{NamespaceState, failed, new_state}
use segwire.Netlink.{Netlink, NamespaceInfo}
use segwire.Netlink.Simulated.{SimulatedState, new_simulated, create_simulated, list_simulated}
use segwire.Netlink.Refinement.{
  create, delete, run_simulated, run_abstract, Represents, run_simulated-run_abstract,
}
use segwire.ConfigManager.{namespace_prefix}
use segwire.ConfigManager.Prefix.{matches_prefix}
use segwire.StateManager.{NamespaceStateManager, perform_maintenance}
use segwire.StateManager.Create.{create_new_namespace}
use segwire.StateManager.Sync.{synchronize_state}
use segwire.StateManager.{StateConflict, delete_namespace}
use segwire.StateManager.Tracking.{is_tracked}
use segwire.StateManager.Converge.{is_tracked-synchronize_state}
use segwire.StateManager.Settled.{synchronize_state_twice-created}
use segwire.StateManager.Outcomes.{attempt_status, create_new_namespace-status}
use segwire.StateManager.Maintenance.{is_expired, lookup-perform_maintenance}
use segwire.Sorting.Duplicates.{all_distinct}
use segwire.Tests.Data.{ascii_digits, network, fresh_states, vpn_manager, vpn_entry}

nothing-listed : network.list_namespaces fresh_states.netlink_manager ≡ (ok [], new_simulated 0)
unfolding list_simulated
nothing-listed = refl

-- The first synchronisation makes the one configured namespace.
synchronize-creates :
    (synchronize_state network vpn_manager fresh_states).0.created ≡ lit "sw-vpn" ∷ []
unfolding synchronize_state lit list_simulated lookup create_simulated validate_namespace_name
    byte_len is_match
synchronize-creates = refl

is_tracked-synchronize_state_example :
    is_tracked (lit "sw-vpn") (synchronize_state network vpn_manager fresh_states).1 ≡ (
      contains_key (lit "sw-vpn") vpn_manager.namespace_configs
      || (is_tracked (lit "sw-vpn") fresh_states
          && (matches_prefix (namespace_prefix vpn_manager) (lit "sw-vpn")
              && contains_key {V = NamespaceInfo} (lit "sw-vpn") [])))
is_tracked-synchronize_state_example =
    is_tracked-synchronize_state network vpn_manager fresh_states [] (new_simulated 0)
      (lit "sw-vpn") (refl, tt) nothing-listed

synchronize_state_twice-created_example :
    (synchronize_state network vpn_manager
      (synchronize_state network vpn_manager fresh_states).1).0.created
    ≡ []
synchronize_state_twice-created_example =
    synchronize_state_twice-created network vpn_manager fresh_states [] (new_simulated 0) (refl, tt)
      nothing-listed

create_new_namespace-status_example :
    (s : NamespaceState) × (lookup
        (lit "sw-vpn")
        (create_new_namespace network vpn_entry fresh_states).1.namespace_states
      ≡ some s)
    × (s.status ≡ attempt_status (is_ok (create_new_namespace network vpn_entry fresh_states).0))
create_new_namespace-status_example = create_new_namespace-status network vpn_entry fresh_states

-- A network that does not answer.
abbrev dead_network : Netlink SimulatedState
dead_network = record network { list_namespaces = λ st. (err (validation []), st) }

-- A namespace that failed at the epoch, two hours ago.
abbrev failed_state : NamespaceState
failed_state = record (new_state (lit "vpn") (lit "sw-vpn") (lit "vpn.toml") 0) { status = failed }

abbrev late_states : NamespaceStateManager SimulatedState
late_states = record fresh_states {
  namespace_states = (lit "sw-vpn", failed_state) ∷ [];
  netlink_manager = new_simulated 7_200_000_000_000;
}

vpn-distinct : all_distinct (keys late_states.namespace_states) ≡ true
unfolding keys
vpn-distinct = refl

vpn-found : lookup (lit "sw-vpn") late_states.namespace_states ≡ some failed_state
unfolding lookup lit text_eq
vpn-found = refl

lookup-perform_maintenance_example :
    lookup (lit "sw-vpn") (perform_maintenance network late_states).namespace_states
    ≡ (if is_expired 7_200_000_000_000 failed_state then none else some failed_state)
lookup-perform_maintenance_example =
    lookup-perform_maintenance network late_states (lit "sw-vpn") failed_state vpn-distinct
      vpn-found

abbrev deletion : StateConflict
deletion = record { namespace_name = lit "sw-vpn"; description = []; resolution = delete_namespace }

nothing-present : Represents (new_simulated 0) (λ name. false)
unfolding lookup
nothing-present name = refl

run_simulated-run_abstract_example :
    ((run_simulated
        (create (lit "vpn") ∷ create (lit "vpn") ∷ delete (lit "lan") ∷ [])
        (new_simulated 0)).0
      ≡ (run_abstract
          (create (lit "vpn") ∷ create (lit "vpn") ∷ delete (lit "lan") ∷ [])
          (λ name. false)).0)
    × Represents
        (run_simulated
          (create (lit "vpn") ∷ create (lit "vpn") ∷ delete (lit "lan") ∷ [])
          (new_simulated 0)).1
        (run_abstract
          (create (lit "vpn") ∷ create (lit "vpn") ∷ delete (lit "lan") ∷ [])
          (λ name. false)).1
run_simulated-run_abstract_example =
    run_simulated-run_abstract (create (lit "vpn") ∷ create (lit "vpn") ∷ delete (lit "lan") ∷ [])
      (new_simulated 0) (λ name. false) nothing-present
