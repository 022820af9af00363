-- ===== src/StateManager/Sync.antt =====
-- `process_configured_namespace`, `synchronize_state` and `resolve_conflict`.
use segwire.Base.{
  Bool, not, ◌||◌, Option, none, some, List, [], ◌∷◌, ◌++◌, ltb, ok, err, if◌then◌else◌,
}
use segwire.Text.{Text, lit}
use segwire.Map.{Map, lookup, contains_key, keys, retain}
use segwire.Error.{SegwireResult, config, invalid_value, error_message}
use segwire.NamespaceState.{NamespaceState, as_secs, touch}
use segwire.Netlink.{Netlink, NamespaceInfo}
use segwire.ConfigManager.{ConfigManager, NamespaceConfigEntry, namespace_prefix}
use segwire.ConfigManager.Prefix.{matches_prefix}
use segwire.StateManager.{
  NamespaceStateManager, StateConflict, ConflictResolution, create_namespace, delete_namespace,
  SyncAction, created, updated, no_change, conflict, SyncResult, update_namespace_state,
  remove_namespace_state, with_state, remove_all,
}
use segwire.StateManager.Create.{
  create_new_namespace, update_existing_namespace, create_state_from_actual,
}

-- needs_namespace_update and has_configuration_drift
unfoldable pub needs_namespace_update : NamespaceState → NamespaceConfigEntry → NamespaceInfo → Bool
needs_namespace_update s entry actual =
    ltb s.last_updated (as_secs entry.last_modified) || not actual.active

abbrev pub tracked_conflict : Text → StateConflict
tracked_conflict full_name = record {
  namespace_name = full_name;
  description = lit "Namespace '" ++ (full_name ++ lit "' is tracked but doesn't exist in system");
  resolution = create_namespace;
}

abbrev pub unconfigured_conflict : Text → StateConflict
unconfigured_conflict name = record {
  namespace_name = name;
  description =
      lit "Namespace '" ++ (name ++ lit "' exists in system but has no configuration file");
  resolution = delete_namespace;
}

-- What the loop notes of an action, under the name of its configuration.
abbrev pub record_action : Text → SegwireResult SyncAction → SyncResult → SyncResult
record_action name (ok created) r = record r { created = r.created ++ name ∷ [] }
record_action name (ok updated) r = record r { updated = r.updated ++ name ∷ [] }
record_action name (ok no_change) r = r
record_action name (ok (conflict c)) r = record r { conflicts = r.conflicts ++ c ∷ [] }
record_action name (err e) r = record r {
  errors = r.errors ++ (lit "Failed to process " ++ (name ++ (lit ": " ++ error_message e))) ∷ [];
}

-- The namespaces of the system that no configuration names.
unfoldable pub unconfigured : Map NamespaceConfigEntry → List Text → List StateConflict
unconfigured configs [] = []
unconfigured configs (name ∷ names) =
    let rest = unconfigured configs names in
    if contains_key name configs then rest else unconfigured_conflict name ∷ rest

-- The tracked names that neither the configuration nor the system knows.
unfoldable pub orphans : Map NamespaceConfigEntry → Map NamespaceInfo → List Text → List Text
orphans configs actuals [] = []
orphans configs actuals (name ∷ names) =
    let rest = orphans configs actuals names in
    if contains_key name configs || contains_key name actuals then rest else name ∷ rest

abbrev pub empty_result : SyncResult
empty_result = record { created = []; updated = []; deleted = []; conflicts = []; errors = [] }

abbrev pub managed : Text → Map NamespaceInfo → Map NamespaceInfo
managed prefix actuals = retain (λ name info. matches_prefix prefix name) actuals

module _ {K : Type 0} (net : Netlink K) where
  -- The cases of process_configured_namespace: whether the namespace is tracked, and whether the
  -- system has it.
  unfoldable pub process_case :
      Option NamespaceState
      → Option NamespaceInfo
      → NamespaceConfigEntry
      → NamespaceStateManager K
      → SegwireResult SyncAction × NamespaceStateManager K
  unfolding needs_namespace_update create_state_from_actual create_new_namespace
      update_existing_namespace touch with_state update_namespace_state
  process_case (some s) (some actual) entry m =
      if needs_namespace_update s entry actual
      then update_existing_namespace net entry actual m
      else (
        ok no_change,
        with_state entry.full_name (λ s' k. let (t, k') = net.now k in (touch t s', k')) m,
      )
  process_case (some s) none entry m = (ok (conflict (tracked_conflict entry.full_name)), m)
  process_case none (some actual) entry m =
      let (s, k) = create_state_from_actual net entry actual m.netlink_manager in
      (ok updated, update_namespace_state s (record m { netlink_manager = k }))
  process_case none none entry m = create_new_namespace net entry m

  unfoldable pub process_configured_namespace :
      NamespaceConfigEntry
      → Map NamespaceInfo
      → NamespaceStateManager K
      → SegwireResult SyncAction × NamespaceStateManager K
  unfolding process_case
  process_configured_namespace entry actuals m =
      process_case (lookup entry.full_name m.namespace_states) (lookup entry.full_name actuals)
        entry m

  -- The loop over the configured namespaces.
  unfoldable pub process_all :
      Map NamespaceConfigEntry
      → Map NamespaceInfo
      → SyncResult × NamespaceStateManager K
      → SyncResult × NamespaceStateManager K
  unfolding process_configured_namespace
  process_all [] actuals (r, m) = (r, m)
  process_all ((name, entry) ∷ rest) actuals (r, m) =
      let (action, m') = process_configured_namespace entry actuals m in
      process_all rest actuals (record_action name action r, m')

  -- Behind the loop: conflicts, orphans, and the time of the synchronisation.
  unfoldable pub finish_sync :
      Map NamespaceConfigEntry
      → Map NamespaceInfo
      → SyncResult × NamespaceStateManager K
      → SyncResult × NamespaceStateManager K
  unfolding unconfigured orphans remove_all
  finish_sync configs actuals (r, m) =
      let gone = orphans configs actuals (keys m.namespace_states) in
      let m' = remove_all gone m in
      let (t, k) = net.now m'.netlink_manager in
      (
        record r {
          conflicts = r.conflicts ++ unconfigured configs (keys actuals);
          deleted = r.deleted ++ gone;
        },
        record m' { netlink_manager = k; last_sync = t },
      )

  abbrev pub with_namespaces :
      ConfigManager
      → SegwireResult (Map NamespaceInfo)
      → NamespaceStateManager K
      → SyncResult × NamespaceStateManager K
  with_namespaces cm (err e) m = (
    record empty_result {
      errors = (lit "Failed to list system namespaces: " ++ error_message e) ∷ [];
    },
    m,
  )
  with_namespaces cm (ok listed) m =
      let actuals = managed (namespace_prefix cm) listed in
      finish_sync cm.namespace_configs actuals
        (process_all cm.namespace_configs actuals (empty_result, m))

  -- synchronize_state
  unfoldable pub synchronize_state :
      ConfigManager → NamespaceStateManager K → SyncResult × NamespaceStateManager K
  unfolding process_all finish_sync retain keys
  synchronize_state cm m =
      let (listed, k) = net.list_namespaces m.netlink_manager in
      with_namespaces cm listed (record m { netlink_manager = k })

  abbrev pub drop_action :
      SegwireResult SyncAction × NamespaceStateManager K
      → SegwireResult (Unit {0}) × NamespaceStateManager K
  drop_action (ok a, m) = (ok tt, m)
  drop_action (err e, m) = (err e, m)

  abbrev pub create_for_conflict :
      Text
      → Option NamespaceConfigEntry
      → NamespaceStateManager K
      → SegwireResult (Unit {0}) × NamespaceStateManager K
  create_for_conflict name none m = (
    err (config (invalid_value (lit "namespace_name") (lit "No configuration found for " ++ name))),
    m,
  )
  create_for_conflict name (some entry) m = drop_action (create_new_namespace net entry m)

  abbrev pub delete_for_conflict :
      Text
      → SegwireResult (Unit {0}) × K
      → NamespaceStateManager K
      → SegwireResult (Unit {0}) × NamespaceStateManager K
  delete_for_conflict name (ok done, k) m =
      (ok tt, remove_namespace_state name (record m { netlink_manager = k }))
  delete_for_conflict name (err e, k) m = (err e, record m { netlink_manager = k })

  abbrev pub resolve :
      ConflictResolution
      → Text
      → ConfigManager
      → NamespaceStateManager K
      → SegwireResult (Unit {0}) × NamespaceStateManager K
  resolve create_namespace name cm m = create_for_conflict name (lookup name cm.namespace_configs) m
  resolve delete_namespace name cm m =
      delete_for_conflict name (net.delete_namespace name m.netlink_manager) m

  unfoldable pub resolve_conflict :
      StateConflict
      → ConfigManager
      → NamespaceStateManager K
      → SegwireResult (Unit {0}) × NamespaceStateManager K
  unfolding create_new_namespace remove_namespace_state
  resolve_conflict c cm m = resolve c.resolution c.namespace_name cm m
