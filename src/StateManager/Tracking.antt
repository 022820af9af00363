-- ===== src/StateManager/Tracking.antt =====
-- Which namespaces are tracked after each operation.
use segwire.Base.{
  Bool, true, not, ◌&&◌, ◌||◌, Option, none, some, List, [], ◌∷◌, ok, err, ◌≡◌, refl, arith, any,
  Bool-cases, Option-cases, inl, inr, ap, sym, ◌∙◌,
}
use segwire.Text.{Text, is_some}
use segwire.Text.Equality.{text_eq, text_eq_iff}
use segwire.Map.{Map, lookup, insert, contains_key, lookup-insert, lookup-remove}
use segwire.Error.{SegwireResult}
use segwire.NamespaceState.{NamespaceState}
use segwire.Netlink.{Netlink, NamespaceInfo}
use segwire.ConfigManager.{NamespaceConfigEntry}
use segwire.StateManager.{
  NamespaceStateManager, update_namespace_state, remove_namespace_state, with_state, remove_all,
}
use segwire.StateManager.Create.{
  create_new_namespace, update_existing_namespace, create_state_from_actual, after_create,
}
use segwire.StateManager.Sync.{process_case, process_configured_namespace, needs_namespace_update}

is_tracked-insert :
    (k j : Text) (s : NamespaceState) (states : Map NamespaceState)
    → contains_key k (insert j s states) ≡ (text_eq j k || contains_key k states)
is_tracked-insert k j s states = rw lookup-insert (ground arith)

module _ {K : Type 0} where
  abbrev pub is_tracked : Text → NamespaceStateManager K → Bool
  is_tracked k m = contains_key k m.namespace_states

  is_tracked-update :
      (k : Text) (s : NamespaceState) (m : NamespaceStateManager K)
      → is_tracked k (update_namespace_state s m) ≡ (text_eq s.full_name k || is_tracked k m)
  unfolding update_namespace_state
  is_tracked-update k s m = is_tracked-insert k s.full_name s m.namespace_states

  is_tracked-with_state :
      (k name : Text) (f : NamespaceState → K → NamespaceState × K) (m : NamespaceStateManager K)
      → is_tracked k (with_state name f m) ≡ is_tracked k m
  unfolding with_state
  is_tracked-with_state k name f m = elim (Option-cases (lookup name m.namespace_states)) [
    | inl missing ↦ rw missing refl
    | inr (s, found) ↦ rw found (
        is_tracked-insert k name (f s m.netlink_manager).0 m.namespace_states
        ∙ ground (arith, text_eq_iff name k))
  ]

  pub is_tracked-remove_all :
      (k : Text) (names : List Text) (m : NamespaceStateManager K)
      → is_tracked k (remove_all names m) ≡ (is_tracked k m && not (any (λ n. text_eq n k) names))
  unfolding remove_all remove_namespace_state
  is_tracked-remove_all k [] m = ground arith
  is_tracked-remove_all k (n ∷ names) m = ground (
    arith,
    is_tracked-remove_all k names (remove_namespace_state n m),
    lookup-remove n k m.namespace_states,
  )

  module _ (net : Netlink K) where
    is_tracked-after_create :
        (k : Text) (entry : NamespaceConfigEntry) (r : SegwireResult NamespaceInfo)
        (m : NamespaceStateManager K)
        → is_tracked k (after_create net entry r m).1 ≡ is_tracked k m
    is_tracked-after_create k entry (ok info) m = is_tracked-with_state k entry.full_name _ _
    is_tracked-after_create k entry (err e) m = is_tracked-with_state k entry.full_name _ _

    pub is_tracked-create :
        (k : Text) (entry : NamespaceConfigEntry) (m : NamespaceStateManager K)
        → is_tracked k (create_new_namespace net entry m).1
          ≡ (text_eq entry.full_name k || is_tracked k m)
    unfolding create_new_namespace
    is_tracked-create k entry m =
        is_tracked-after_create k entry _ _
        ∙ is_tracked-insert k entry.full_name _ m.namespace_states

    is_tracked-update_existing :
        (k : Text) (entry : NamespaceConfigEntry) (actual : NamespaceInfo)
        (m : NamespaceStateManager K)
        → is_tracked k (update_existing_namespace net entry actual m).1 ≡ is_tracked k m
    unfolding update_existing_namespace
    is_tracked-update_existing k entry actual m = is_tracked-with_state k entry.full_name _ _

    create_state_from_actual-full_name :
        (entry : NamespaceConfigEntry) (actual : NamespaceInfo) (k : K)
        → (create_state_from_actual net entry actual k).0.full_name ≡ entry.full_name
    unfolding create_state_from_actual
    create_state_from_actual-full_name entry actual k = refl

    -- A name that is tracked before stays tracked under any name for it.
    tracked_name :
        (k : Text) (entry : NamespaceConfigEntry) (m : NamespaceStateManager K)
        → is_tracked entry.full_name m ≡ true
        → is_tracked k m ≡ (text_eq entry.full_name k || is_tracked k m)
    tracked_name k entry m h = elim (Bool-cases (text_eq entry.full_name k)) [
      | inl same ↦
          let e : is_tracked k m ≡ true =
            ap (λ n. is_tracked n m) (sym ((text_eq_iff _ _).0 same)) ∙ h in
          rw (same, e)
      | inr other ↦ rw other
    ]

    -- Processing a configured namespace makes its name tracked, and leaves every other name as it was,
    -- whatever the system answers.
    pub is_tracked-process :
        (k : Text) (entry : NamespaceConfigEntry) (actuals : Map NamespaceInfo)
        (m : NamespaceStateManager K)
        → is_tracked k (process_configured_namespace net entry actuals m).1
          ≡ (text_eq entry.full_name k || is_tracked k m)
    unfolding process_configured_namespace
    is_tracked-process k entry actuals m =
        from (lookup entry.full_name m.namespace_states) (lookup entry.full_name actuals) refl
      where
        from :
            (o : Option NamespaceState) (a : Option NamespaceInfo)
            → lookup entry.full_name m.namespace_states ≡ o
            → is_tracked k (process_case net o a entry m).1
              ≡ (text_eq entry.full_name k || is_tracked k m)
        from none none e = is_tracked-create k entry m
        from none (some actual) e = is_tracked-insert k entry.full_name _ m.namespace_states
        from (some s) none e = tracked_name k entry m (ap is_some e)
        from (some s) (some actual) e = elim (Bool-cases (needs_namespace_update s entry actual)) [
          | inl changed ↦
              rw changed (
                is_tracked-update_existing k entry actual m ∙ tracked_name k entry m (ap is_some e))
          | inr same ↦
              rw same (
                is_tracked-with_state k entry.full_name _ _ ∙ tracked_name k entry m (ap is_some e))
        ]
