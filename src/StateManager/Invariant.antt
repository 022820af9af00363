-- ===== src/StateManager/Invariant.antt =====
-- That every state stands under its own full name, under each operation.
use segwire.Base.{
  not, ◌&&◌, is_ok, Option, none, some, List, [], ◌∷◌, ok, err, ◌≡◌, refl, arith, Option-cases,
  Bool-cases, inl, inr, ◌∙◌,
}
use segwire.Text.{Text}
use segwire.Text.Equality.{text_eq}
use segwire.StateManager.Tracking.{is_tracked}
use segwire.Map.{Map, lookup, keys, lookup-remove}
use segwire.Map.Entries.{Entries, Entries-insert, Entries-remove, Entries-lookup}
use segwire.Error.{SegwireResult}
use segwire.NamespaceState.{NamespaceState, NamespaceStatus, active, failed, set_status, touch}
use segwire.Netlink.{Netlink, NamespaceInfo}
use segwire.ConfigManager.{ConfigManager, NamespaceConfigEntry, namespace_prefix}
use segwire.StateManager.{
  NamespaceStateManager, SyncResult, SyncAction, StateConflict, ConflictResolution,
  create_namespace, delete_namespace, with_state, update_namespace_state, remove_namespace_state,
  remove_all, perform_maintenance, update_state_from_config_and_actual, expired_keys,
}
use segwire.StateManager.Create.{
  create_new_namespace, update_existing_namespace, create_state_from_actual, after_create, mark,
  refresh,
}
use segwire.StateManager.Sync.{
  process_case, process_configured_namespace, process_all, finish_sync, with_namespaces,
  synchronize_state, needs_namespace_update, resolve_conflict, resolve, create_for_conflict,
  delete_for_conflict, drop_action, empty_result, managed, orphans,
}

module _ {K : Type 0} where
  abbrev pub IsNamed : NamespaceStateManager K → Type 0
  IsNamed m = Entries (λ key s. s.full_name ≡ key) m.namespace_states

  with_state-IsNamed :
      (name : Text) (f : NamespaceState → K → NamespaceState × K) (m : NamespaceStateManager K)
      → ((s : NamespaceState) (k : K) → (f s k).0.full_name ≡ s.full_name)
      → IsNamed m
      → IsNamed (with_state name f m)
  unfolding with_state
  with_state-IsNamed name f m same h = elim (Option-cases (lookup name m.namespace_states)) [
    | inl missing ↦ rw missing h
    | inr (s, found) ↦ rw found (
        Entries-insert (λ key s'. s'.full_name ≡ key) name _ m.namespace_states
          (same s m.netlink_manager
            ∙ Entries-lookup (λ key s'. s'.full_name ≡ key) name s m.namespace_states h found)
          h)
  ]

  pub update-IsNamed :
      (s : NamespaceState) (m : NamespaceStateManager K)
      → IsNamed m
      → IsNamed (update_namespace_state s m)
  unfolding update_namespace_state
  update-IsNamed s m h =
      Entries-insert (λ key s'. s'.full_name ≡ key) s.full_name s m.namespace_states refl h

  remove_all-IsNamed :
      (names : List Text) (m : NamespaceStateManager K) → IsNamed m → IsNamed (remove_all names m)
  unfolding remove_all remove_namespace_state
  remove_all-IsNamed [] m h = h
  remove_all-IsNamed (n ∷ names) m h =
      remove_all-IsNamed names (remove_namespace_state n m)
        (Entries-remove (λ key s. s.full_name ≡ key) n m.namespace_states h)

  module _ (net : Netlink K) where
    mark-full_name :
        (status : NamespaceStatus) (s : NamespaceState) (k : K)
        → (mark net status s k).0.full_name ≡ s.full_name
    unfolding set_status touch
    mark-full_name status s k = refl

    refresh-full_name :
        (entry : NamespaceConfigEntry) (info : NamespaceInfo) (s : NamespaceState) (k : K)
        → (refresh net entry info s k).0.full_name ≡ s.full_name
    unfolding update_state_from_config_and_actual touch
    refresh-full_name entry info s k = refl

    after_create-IsNamed :
        (entry : NamespaceConfigEntry) (r : SegwireResult NamespaceInfo)
        (m : NamespaceStateManager K)
        → IsNamed m
        → IsNamed (after_create net entry r m).1
    after_create-IsNamed entry (ok info) m h =
        with_state-IsNamed entry.full_name _ _
          (λ s k. refresh-full_name entry info _ _ ∙ mark-full_name active s k) h
    after_create-IsNamed entry (err e) m h =
        with_state-IsNamed entry.full_name (mark net failed) m (mark-full_name failed) h

    create-IsNamed :
        (entry : NamespaceConfigEntry) (m : NamespaceStateManager K)
        → IsNamed m
        → IsNamed (create_new_namespace net entry m).1
    unfolding create_new_namespace
    create-IsNamed entry m h = after_create-IsNamed entry _ _ (update-IsNamed _ m h)

    process_case-IsNamed :
        (o : Option NamespaceState) (a : Option NamespaceInfo) (entry : NamespaceConfigEntry)
        (m : NamespaceStateManager K)
        → IsNamed m
        → IsNamed (process_case net o a entry m).1
    unfolding process_case update_existing_namespace update_state_from_config_and_actual touch
        create_state_from_actual
    process_case-IsNamed none none entry m h = create-IsNamed entry m h
    process_case-IsNamed none (some actual) entry m h =
        Entries-insert (λ key s. s.full_name ≡ key) entry.full_name _ m.namespace_states refl h
    process_case-IsNamed (some s) none entry m h = h
    process_case-IsNamed (some s) (some actual) entry m h =
        elim (Bool-cases (needs_namespace_update s entry actual)) [
          | inl changed ↦ rw changed (with_state-IsNamed entry.full_name _ _ (λ s' k. refl) h)
          | inr same ↦ rw same (with_state-IsNamed entry.full_name _ m (λ s' k. refl) h)
        ]

    process_all-IsNamed :
        (configs : Map NamespaceConfigEntry) (actuals : Map NamespaceInfo) (r : SyncResult)
        (m : NamespaceStateManager K)
        → IsNamed m
        → IsNamed (process_all net configs actuals (r, m)).1
    unfolding process_all process_configured_namespace
    process_all-IsNamed [] actuals r m h = h
    process_all-IsNamed ((name, entry) ∷ rest) actuals r m h =
        process_all-IsNamed rest actuals _ _ (process_case-IsNamed _ _ entry m h)

    with_namespaces-IsNamed :
        (cm : ConfigManager) (listed : SegwireResult (Map NamespaceInfo))
        (m : NamespaceStateManager K)
        → IsNamed m
        → IsNamed (with_namespaces net cm listed m).1
    unfolding finish_sync
    with_namespaces-IsNamed cm (err e) m h = h
    with_namespaces-IsNamed cm (ok listed) m h =
        let actuals = managed (namespace_prefix cm) listed in
        let p = process_all net cm.namespace_configs actuals (empty_result, m) in
        remove_all-IsNamed (orphans cm.namespace_configs actuals (keys p.1.namespace_states)) p.1
          (process_all-IsNamed cm.namespace_configs actuals empty_result m h)

    -- A synchronisation keeps every state under its own full name, whatever the network answers.
    pub synchronize_state-IsNamed :
        (cm : ConfigManager) (m : NamespaceStateManager K)
        → IsNamed m
        → IsNamed (synchronize_state net cm m).1
    unfolding synchronize_state
    synchronize_state-IsNamed cm m h = with_namespaces-IsNamed cm _ _ h

    pub perform_maintenance-IsNamed :
        (m : NamespaceStateManager K) → IsNamed m → IsNamed (perform_maintenance net m)
    unfolding perform_maintenance
    perform_maintenance-IsNamed m h =
        remove_all-IsNamed (expired_keys (net.now m.netlink_manager).0 m.namespace_states)
          (record m { netlink_manager = (net.now m.netlink_manager).1 }) h

    drop_action-IsNamed :
        (p : SegwireResult SyncAction × NamespaceStateManager K)
        → IsNamed p.1
        → IsNamed (drop_action net p).1
    drop_action-IsNamed (ok a, m) h = h
    drop_action-IsNamed (err e, m) h = h

    create_for_conflict-IsNamed :
        (name : Text) (o : Option NamespaceConfigEntry) (m : NamespaceStateManager K)
        → IsNamed m
        → IsNamed (create_for_conflict net name o m).1
    create_for_conflict-IsNamed name none m h = h
    create_for_conflict-IsNamed name (some entry) m h =
        drop_action-IsNamed (create_new_namespace net entry m) (create-IsNamed entry m h)

    delete_for_conflict-IsNamed :
        (name : Text) (p : SegwireResult (Unit {0}) × K) (m : NamespaceStateManager K)
        → IsNamed m
        → IsNamed (delete_for_conflict net name p m).1
    unfolding remove_namespace_state
    delete_for_conflict-IsNamed name (ok done, k) m h =
        Entries-remove (λ key s. s.full_name ≡ key) name m.namespace_states h
    delete_for_conflict-IsNamed name (err e, k) m h = h

    -- The resolution of a conflict keeps every state under its own full name, also one that fails.
    pub resolve_conflict-IsNamed :
        (c : StateConflict) (cm : ConfigManager) (m : NamespaceStateManager K)
        → IsNamed m
        → IsNamed (resolve_conflict net c cm m).1
    unfolding resolve_conflict
    resolve_conflict-IsNamed c cm m h = from c.resolution
      where
        from : (r : ConflictResolution) → IsNamed (resolve net r c.namespace_name cm m).1
        from create_namespace = create_for_conflict-IsNamed c.namespace_name _ m h
        from delete_namespace = delete_for_conflict-IsNamed c.namespace_name _ m h

    -- A deletion that resolves a conflict forgets the name exactly if it succeeds, and leaves every
    -- other name as it was.
    pub resolve_conflict-delete :
        (c : StateConflict) (cm : ConfigManager) (m : NamespaceStateManager K) (name : Text)
        → c.resolution ≡ delete_namespace
        → is_tracked name (resolve_conflict net c cm m).1 ≡ (
            is_tracked name m
            && not (text_eq c.namespace_name name && is_ok (resolve_conflict net c cm m).0))
    unfolding resolve_conflict remove_namespace_state
    resolve_conflict-delete c cm m name deletes =
        rw deletes (from (net.delete_namespace c.namespace_name m.netlink_manager))
      where
        from :
            (p : SegwireResult (Unit {0}) × K)
            → is_tracked name (delete_for_conflict net c.namespace_name p m).1 ≡ (
                is_tracked name m
                && not (
                    text_eq c.namespace_name name
                    && is_ok (delete_for_conflict net c.namespace_name p m).0))
        from (ok done, k) =
            rw (lookup-remove c.namespace_name name m.namespace_states) (ground arith)
        from (err e, k) = ground arith
