-- ===== src/StateManager/Converge.antt =====
-- What a synchronisation leaves tracked.
use segwire.Base.{
  Bool, not, ◌&&◌, ◌||◌, List, [], ◌∷◌, ok, err, ◌≡◌, refl, arith, any, length, Bool-cases, inl,
  inr, ◌∙◌,
}
use segwire.Text.{Text}
use segwire.Text.Equality.{text_eq, text_eq_iff, text_eq_refl}
use segwire.Map.{Map, lookup, contains_key, keys}
use segwire.Map.Entries.{Entries, lookup-retain_keys}
use segwire.Error.{SegwireError}
use segwire.Netlink.{Netlink, NamespaceInfo}
use segwire.ConfigManager.{ConfigManager, NamespaceConfigEntry, namespace_prefix}
use segwire.ConfigManager.Prefix.{matches_prefix}
use segwire.StateManager.{NamespaceStateManager, SyncResult}
use segwire.StateManager.Sync.{
  process_all, orphans, finish_sync, synchronize_state, managed, empty_result, with_namespaces,
}
use segwire.StateManager.Tracking.{is_tracked, is_tracked-process, is_tracked-remove_all}

-- Every configuration stands under its full name, as the configuration manager keeps it.
abbrev pub IsKeyed : Map NamespaceConfigEntry → Type 0
IsKeyed configs = Entries (λ key entry. entry.full_name ≡ key) configs

abbrev names : Text → Map NamespaceConfigEntry → Bool
names k configs = any (λ e. text_eq e.1.full_name k) configs

names-contains_key :
    (k : Text) (configs : Map NamespaceConfigEntry)
    → IsKeyed configs
    → names k configs ≡ contains_key k configs
unfolding lookup
names-contains_key k [] h = refl
names-contains_key k ((key, entry) ∷ rest) (same, h) =
    rw same (ground (arith, names-contains_key k rest h))

any-keys {ℓ} :
    {V : Type ℓ} (k : Text) (m : Map V) → any (λ n. text_eq n k) (keys m) ≡ contains_key k m
unfolding lookup keys
any-keys k [] = refl
any-keys k ((j, v) ∷ m) = ground (arith, any-keys k m)

any-orphans :
    (k : Text) (configs : Map NamespaceConfigEntry) (actuals : Map NamespaceInfo) (ns : List Text)
    → any (λ n. text_eq n k) (orphans configs actuals ns)
      ≡ (any (λ n. text_eq n k) ns && not (contains_key k configs || contains_key k actuals))
unfolding orphans
any-orphans k configs actuals [] = refl
any-orphans k configs actuals (n ∷ ns) = elim (Bool-cases (text_eq n k)) [
  | inl same ↦
      let e = (text_eq_iff n k).0 same in
      rw e (ground (arith, any-orphans k configs actuals ns, text_eq_refl k))
  | inr other ↦ ground (arith, any-orphans k configs actuals ns)
]

module _ {K : Type 0} (net : Netlink K) where
  is_tracked-process_all :
      (k : Text) (configs : Map NamespaceConfigEntry) (actuals : Map NamespaceInfo) (r : SyncResult)
      (m : NamespaceStateManager K)
      → is_tracked k (process_all net configs actuals (r, m)).1
        ≡ (names k configs || is_tracked k m)
  unfolding process_all
  is_tracked-process_all k [] actuals r m = refl
  is_tracked-process_all k ((name, entry) ∷ rest) actuals r m =
      is_tracked-process_all k rest actuals _ _
      ∙ (rw (is_tracked-process net k entry actuals m) (ground arith))

  is_tracked-finish_sync :
      (k : Text) (configs : Map NamespaceConfigEntry) (actuals : Map NamespaceInfo) (r : SyncResult)
      (m : NamespaceStateManager K)
      → is_tracked k (finish_sync net configs actuals (r, m)).1
        ≡ (is_tracked k m && (contains_key k configs || contains_key k actuals))
  unfolding finish_sync
  is_tracked-finish_sync k configs actuals r m =
      is_tracked-remove_all k (orphans configs actuals (keys m.namespace_states)) m
      ∙ (rw (any-orphans k configs actuals (keys m.namespace_states), any-keys k m.namespace_states)
          (ground arith))

  is_tracked-with_namespaces :
      (cm : ConfigManager) (m : NamespaceStateManager K) (listed : Map NamespaceInfo) (name : Text)
      → IsKeyed cm.namespace_configs
      → is_tracked name (with_namespaces net cm (ok listed) m).1 ≡ (
          contains_key name cm.namespace_configs
          || (is_tracked name m
              && (matches_prefix (namespace_prefix cm) name && contains_key name listed)))
  is_tracked-with_namespaces cm m listed name keyed =
      let actuals = managed (namespace_prefix cm) listed in
      let p = process_all net cm.namespace_configs actuals (empty_result, m) in
      let kept : contains_key name actuals
          ≡ (matches_prefix (namespace_prefix cm) name && contains_key name listed) =
        rw (lookup-retain_keys (matches_prefix (namespace_prefix cm)) name listed) (ground arith) in
      is_tracked-finish_sync name cm.namespace_configs actuals p.0 p.1
      ∙ ground (
        arith,
        kept,
        is_tracked-process_all name cm.namespace_configs actuals empty_result m,
        names-contains_key name cm.namespace_configs keyed,
      )

  -- After a synchronisation that could list the system's namespaces, the tracked names are exactly
  -- the configured ones and those that were tracked before, bear the prefix and exist in the system.
  -- It does not matter which of the other calls failed. The configurations are keyed by their full
  -- names.
  pub is_tracked-synchronize_state :
      (cm : ConfigManager) (m : NamespaceStateManager K) (listed : Map NamespaceInfo) (k' : K)
      (name : Text)
      → IsKeyed cm.namespace_configs
      → net.list_namespaces m.netlink_manager ≡ (ok listed, k')
      → is_tracked name (synchronize_state net cm m).1 ≡ (
          contains_key name cm.namespace_configs
          || (is_tracked name m
              && (matches_prefix (namespace_prefix cm) name && contains_key name listed)))
  unfolding synchronize_state
  is_tracked-synchronize_state cm m listed k' name keyed lists =
      rw lists (is_tracked-with_namespaces cm (record m { netlink_manager = k' }) listed name keyed)

  -- A list that fails leaves every state and the time of the last synchronisation as they were, and
  -- one error is all that is reported.
  pub synchronize_state-list_error :
      (cm : ConfigManager) (m : NamespaceStateManager K) (e : SegwireError) (k' : K)
      → net.list_namespaces m.netlink_manager ≡ (err e, k')
      → ((synchronize_state net cm m).1 ≡ record m { netlink_manager = k' })
        × ((synchronize_state net cm m).0.created ≡ [])
        × ((synchronize_state net cm m).0.deleted ≡ [])
        × (length (synchronize_state net cm m).0.errors ≡ 1)
  unfolding synchronize_state
  synchronize_state-list_error cm m e k' lists = rw lists (refl, refl, refl, refl)
