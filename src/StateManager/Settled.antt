-- ===== src/StateManager/Settled.antt =====
-- The synchronisation behind another one.
use segwire.Base.{
  true, Option, none, some, [], ◌∷◌, ok, err, ◌≡◌, refl, arith, Bool-cases, inl, inr, ap, ◌∙◌,
}
use segwire.Text.{Text, is_some}
use segwire.Map.{Map, lookup}
use segwire.Map.Entries.{Entries, Entries-contains_key}
use segwire.Error.{SegwireResult}
use segwire.NamespaceState.{NamespaceState}
use segwire.Netlink.{Netlink, NamespaceInfo}
use segwire.ConfigManager.{ConfigManager, NamespaceConfigEntry, namespace_prefix}
use segwire.StateManager.{NamespaceStateManager, SyncResult}
use segwire.StateManager.Sync.{
  process_case, process_configured_namespace, process_all, record_action, finish_sync,
  with_namespaces, synchronize_state, needs_namespace_update, empty_result, managed,
}
use segwire.StateManager.Tracking.{is_tracked, is_tracked-process}
use segwire.StateManager.Converge.{IsKeyed, is_tracked-synchronize_state}

module _ {K : Type 0} (net : Netlink K) where
  -- Every configured namespace is tracked.
  abbrev AllTracked : Map NamespaceConfigEntry → NamespaceStateManager K → Type 0
  AllTracked configs m = Entries (λ key entry. is_tracked entry.full_name m ≡ true) configs

  created-process :
      (name : Text) (entry : NamespaceConfigEntry) (actuals : Map NamespaceInfo)
      (m : NamespaceStateManager K) (r : SyncResult)
      → is_tracked entry.full_name m ≡ true
      → (record_action name (process_configured_namespace net entry actuals m).0 r).created
        ≡ r.created
  unfolding process_configured_namespace
  created-process name entry actuals m r h =
      from (lookup entry.full_name m.namespace_states) (lookup entry.full_name actuals) refl
    where
      from :
          (o : Option NamespaceState) (a : Option NamespaceInfo)
          → lookup entry.full_name m.namespace_states ≡ o
          → (record_action name (process_case net o a entry m).0 r).created ≡ r.created
      from none a e = absurd (cc (ap is_some e))
      from (some s) none e = refl
      from (some s) (some actual) e = elim (Bool-cases (needs_namespace_update s entry actual)) [
        | inl changed ↦ rw changed refl
        | inr same ↦ rw same refl
      ]

  AllTracked-process :
      (configs : Map NamespaceConfigEntry) (entry : NamespaceConfigEntry)
      (actuals : Map NamespaceInfo) (m : NamespaceStateManager K)
      → AllTracked configs m
      → AllTracked configs (process_configured_namespace net entry actuals m).1
  AllTracked-process [] entry actuals m h = tt
  AllTracked-process ((key, e) ∷ rest) entry actuals m (p, h) = (
    rw (is_tracked-process net e.full_name entry actuals m) (ground arith),
    AllTracked-process rest entry actuals m h,
  )

  created-process_all :
      (configs : Map NamespaceConfigEntry) (actuals : Map NamespaceInfo) (r : SyncResult)
      (m : NamespaceStateManager K)
      → AllTracked configs m
      → (process_all net configs actuals (r, m)).0.created ≡ r.created
  unfolding process_all
  created-process_all [] actuals r m h = refl
  created-process_all ((name, entry) ∷ rest) actuals r m (p, h) =
      created-process_all rest actuals _ _ (AllTracked-process rest entry actuals m h)
      ∙ created-process name entry actuals m r p

  created-with_namespaces :
      (cm : ConfigManager) (listed : SegwireResult (Map NamespaceInfo))
      (m : NamespaceStateManager K)
      → AllTracked cm.namespace_configs m
      → (with_namespaces net cm listed m).0.created ≡ []
  unfolding finish_sync
  created-with_namespaces cm (err e) m h = refl
  created-with_namespaces cm (ok listed) m h =
      created-process_all cm.namespace_configs (managed (namespace_prefix cm) listed) empty_result m
        h

  AllTracked-of_keyed :
      (configs : Map NamespaceConfigEntry) (m : NamespaceStateManager K)
      → IsKeyed configs
      → Entries (λ key entry. is_tracked key m ≡ true) configs
      → AllTracked configs m
  AllTracked-of_keyed [] m keyed h = tt
  AllTracked-of_keyed ((key, e) ∷ rest) m (same, keyed) (p, h) =
      (rw same p, AllTracked-of_keyed rest m keyed h)

  -- Behind a synchronisation that could list the system's namespaces, the next one with the same
  -- configuration, keyed by the full names, creates no namespace, whatever has changed in the system and whatever failed.
  pub synchronize_state_twice-created :
      (cm : ConfigManager) (m : NamespaceStateManager K) (listed : Map NamespaceInfo) (k' : K)
      → IsKeyed cm.namespace_configs
      → net.list_namespaces m.netlink_manager ≡ (ok listed, k')
      → (synchronize_state net cm (synchronize_state net cm m).1).0.created ≡ []
  synchronize_state_twice-created cm m listed k' keyed lists =
      let after = (synchronize_state net cm m).1 in
      let tracked : AllTracked cm.namespace_configs after =
        AllTracked-of_keyed cm.namespace_configs after keyed (
          Entries-contains_key (λ key. is_tracked key after ≡ true) cm.namespace_configs
            (λ key c. is_tracked-synchronize_state net cm m listed k' key keyed lists ∙ (rw c))) in
      unfold synchronize_state in created-with_namespaces cm _ _ tracked
