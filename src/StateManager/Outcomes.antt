-- ===== src/StateManager/Outcomes.antt =====
-- What comes of a creation.
use segwire.Base.{ℕ, Bool, true, false, some, ok, err, ◌≡◌, refl, arith, is_ok}
use segwire.Text.{Text}
use segwire.Text.Equality.{text_eq_refl}
use segwire.Map.{Map, lookup, insert, lookup-insert}
use segwire.Error.{SegwireResult}
use segwire.NamespaceState.{NamespaceState, NamespaceStatus, active, failed, set_status}
use segwire.Netlink.{Netlink, NamespaceInfo}
use segwire.ConfigManager.{NamespaceConfigEntry}
use segwire.StateManager.{NamespaceStateManager, with_state, update_state_from_config_and_actual}
use segwire.StateManager.Create.{create_new_namespace, after_create}

lookup-insert_self :
    (k : Text) (s : NamespaceState) (m : Map NamespaceState) → lookup k (insert k s m) ≡ some s
lookup-insert_self k s m = rw (lookup-insert k k s m, text_eq_refl)

module _ {K : Type 0} where
  lookup-with_state :
      (name : Text) (f : NamespaceState → K → NamespaceState × K) (m : NamespaceStateManager K)
      (s : NamespaceState)
      → lookup name m.namespace_states ≡ some s
      → lookup name (with_state name f m).namespace_states ≡ some (f s m.netlink_manager).0
  unfolding with_state
  lookup-with_state name f m s h =
      rw h (rw (lookup-insert name name (f s m.netlink_manager).0 m.namespace_states, text_eq_refl))

-- The status that an attempt leaves.
abbrev pub attempt_status : Bool → NamespaceStatus
attempt_status true = active
attempt_status false = failed

module _ {K : Type 0} (net : Netlink K) where
  update_state-status :
      (entry : NamespaceConfigEntry) (info : NamespaceInfo) (t : ℕ) (s : NamespaceState)
      → s.status ≡ active
      → (update_state_from_config_and_actual entry info t s).status ≡ active
  unfolding update_state_from_config_and_actual
  update_state-status entry info t s h = ground arith

  after_create-status :
      (entry : NamespaceConfigEntry) (r : SegwireResult NamespaceInfo) (m : NamespaceStateManager K)
      (s : NamespaceState)
      → lookup entry.full_name m.namespace_states ≡ some s
      → (s' : NamespaceState) × (lookup entry.full_name
            (after_create net entry r m).1.namespace_states
          ≡ some s')
        × (s'.status ≡ attempt_status (is_ok (after_create net entry r m).0))
  unfolding set_status
  after_create-status entry (ok info) m s h =
      (_, lookup-with_state entry.full_name _ _ s h, update_state-status entry info _ _ refl)
  after_create-status entry (err e) m s h = (_, lookup-with_state entry.full_name _ _ s h, refl)

  -- A creation always leaves the namespace tracked, as active if it succeeded and as failed if it did
  -- not; what fails among the interfaces, addresses, routes and DNS does not count.
  pub create_new_namespace-status :
      (entry : NamespaceConfigEntry) (m : NamespaceStateManager K)
      → (s : NamespaceState) × (lookup entry.full_name
            (create_new_namespace net entry m).1.namespace_states
          ≡ some s)
        × (s.status ≡ attempt_status (is_ok (create_new_namespace net entry m).0))
  unfolding create_new_namespace
  create_new_namespace-status entry m =
      after_create-status entry _ _ _ (lookup-insert_self entry.full_name _ m.namespace_states)
