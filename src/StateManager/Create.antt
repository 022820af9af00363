-- ===== src/StateManager/Create.antt =====
-- `create_new_namespace`, `update_existing_namespace` and `create_state_from_actual`.
use segwire.Base.{ok, err}
use segwire.Error.{SegwireResult}
use segwire.NamespaceState.{
  NamespaceState, NamespaceStatus, active, creating, failed, new_state, set_status, touch,
}
use segwire.Netlink.{Netlink, NamespaceInfo}
use segwire.ConfigManager.{NamespaceConfigEntry}
use segwire.StateManager.{
  NamespaceStateManager, SyncAction, created, updated, update_namespace_state, with_state,
  update_state_from_config_and_actual,
}
use segwire.StateManager.Interfaces.{apply_config, apply_routes_and_dns}

module _ {K : Type 0} (net : Netlink K) where
  -- `NamespaceState::new` and `set_status`, each with its own reading of the clock
  unfoldable pub fresh_state : NamespaceConfigEntry → NamespaceStatus → K → NamespaceState × K
  unfolding new_state set_status
  fresh_state entry status k =
      let (t1, k1) = net.now k in
      let (t2, k2) = net.now k1 in
      (
        set_status status t2
            (new_state entry.config.namespace.name entry.full_name entry.file_path t1),
        k2,
      )

  abbrev pub refresh :
      NamespaceConfigEntry → NamespaceInfo → NamespaceState → K → NamespaceState × K
  refresh entry actual s k =
      let (t, k1) = net.now k in (update_state_from_config_and_actual entry actual t s, k1)

  abbrev pub mark : NamespaceStatus → NamespaceState → K → NamespaceState × K
  mark status s k = let (t, k1) = net.now k in (set_status status t s, k1)

  -- The namespace was made: what it is given, and its state.
  abbrev pub finish_created :
      NamespaceConfigEntry → NamespaceInfo → NamespaceStateManager K → NamespaceStateManager K
  finish_created entry info m =
      with_state entry.full_name (λ s k. let (s', k') = mark active s k in refresh entry info s' k')
        (record m {
          netlink_manager = apply_config net entry.full_name entry.config m.netlink_manager;
        })

  abbrev pub after_create :
      NamespaceConfigEntry
      → SegwireResult NamespaceInfo
      → NamespaceStateManager K
      → SegwireResult SyncAction × NamespaceStateManager K
  after_create entry (ok info) m = (ok created, finish_created entry info m)
  after_create entry (err e) m = (err e, with_state entry.full_name (mark failed) m)

  -- create_new_namespace: the state is tracked before the attempt, and whatever comes of it.
  unfoldable pub create_new_namespace :
      NamespaceConfigEntry
      → NamespaceStateManager K
      → SegwireResult SyncAction × NamespaceStateManager K
  unfolding fresh_state set_status with_state update_namespace_state apply_config
      update_state_from_config_and_actual
  create_new_namespace entry m =
      let (s, k) = fresh_state entry creating m.netlink_manager in
      let (made, k') = net.create_namespace entry.full_name k in
      after_create entry made (record (update_namespace_state s m) { netlink_manager = k' })

  -- update_existing_namespace: routes and DNS again, then the state.
  unfoldable pub update_existing_namespace :
      NamespaceConfigEntry
      → NamespaceInfo
      → NamespaceStateManager K
      → SegwireResult SyncAction × NamespaceStateManager K
  unfolding touch with_state apply_routes_and_dns update_state_from_config_and_actual
  update_existing_namespace entry actual m = (
    ok updated,
    with_state entry.full_name
        (λ s k. let (t, k') = net.now k in refresh entry actual (touch t s) k')
        (record m {
          netlink_manager = apply_routes_and_dns net entry.full_name entry.config m.netlink_manager;
        }),
  )

  -- create_state_from_actual
  unfoldable pub create_state_from_actual :
      NamespaceConfigEntry → NamespaceInfo → K → NamespaceState × K
  unfolding fresh_state update_state_from_config_and_actual
  create_state_from_actual entry actual k =
      let (s, k1) = fresh_state entry active k in refresh entry actual s k1
