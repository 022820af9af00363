-- ===== src/Service/Outcomes.antt =====
-- What the deletion and the restart of a namespace by D-Bus do to the tracked namespaces.
use segwire.Base.{
  Bool, true, false, not, ◌&&◌, none, some, [], Result, ok, err, is_ok, ◌≡◌, refl, sym, ap, ◌∙◌,
  subst, arith, Bool-cases, inl, inr, if◌then◌else◌,
}
use segwire.Text.{Text}
use segwire.Text.Equality.{text_eq, text_eq_refl}
use segwire.Map.{Map, lookup, contains_key, lookup-remove, lookup-insert}
use segwire.Error.{SegwireResult}
use segwire.Config.{NamespaceConfig}
use segwire.NamespaceState.{NamespaceState, new_state, is_active, creating}
use segwire.ConfigManager.{NamespaceConfigEntry, namespace_prefix}
use segwire.ConfigManager.Prefix.{full_namespace_name}
use segwire.StateManager.{update_namespace_state, remove_namespace_state}
use segwire.Service.{Host, ServiceState, Backends}
use segwire.Service.Operations.{
  full_name_of, opened_call, with_backend, after_delete, after_create_backend, path_of,
  delete_namespace_by_name, create_namespace_from_config,
}
use segwire.Service.Handlers.{
  find_config, exec_reply, authorize_exec, Reply, operation, inactive, recreate_reply,
}
use segwire.Service.Dispatch.{restart, recreate}

module _ {K R : Type 0} (on : Backends K R) where
  -- The states behind a deletion that succeeded.
  after_delete-states :
      (name full_name k : Text) (r : SegwireResult (Unit {0}) × ServiceState K R)
      → is_ok (after_delete name full_name r).0 ≡ true
      → lookup k (after_delete name full_name r).1.state_manager.namespace_states ≡ (
          if text_eq full_name k
          then none
          else if text_eq name k
          then none
          else lookup k r.1.state_manager.namespace_states)
  unfolding remove_namespace_state
  after_delete-states name full_name k (ok _, svc) h = rw (lookup-remove, lookup-remove) refl
  after_delete-states name full_name k (err e, svc) h = absurd (cc)

  -- A call of the backend leaves the managers as they are.
  abbrev SameManagers : ServiceState K R → ServiceState K R → Type 0
  SameManagers before after =
      (after.state_manager ≡ before.state_manager) × (after.config_manager ≡ before.config_manager)

  opened_call-SameManagers :
      {A : Type 0} (call : R → SegwireResult A × R) (svc : ServiceState K R)
      (opened : SegwireResult (Unit {0}) × R)
      → SameManagers svc (opened_call call svc opened).1
  opened_call-SameManagers call svc (ok _, r) = (refl, refl)
  opened_call-SameManagers call svc (err e, r) = (refl, refl)

  -- A deletion that succeeded leaves neither the name nor the full name tracked, and every other
  -- state as it was.
  pub lookup-delete_namespace_by_name :
      (name k : Text) (svc : ServiceState K R)
      → is_ok (delete_namespace_by_name on name svc).0 ≡ true
      → lookup k (delete_namespace_by_name on name svc).1.state_manager.namespace_states ≡ (
          if text_eq (full_name_of svc name) k
          then none
          else if text_eq name k
          then none
          else lookup k svc.state_manager.namespace_states)
  unfolding delete_namespace_by_name
  lookup-delete_namespace_by_name name k svc h =
      let full_name = full_name_of svc name in
      let call = on.backend.delete_namespace full_name in
      let result = with_backend on call svc in
      let same = (opened_call-SameManagers call svc (on.open_backend svc.real)).0 in
      let states = svc.state_manager.namespace_states in
      elim (Bool-cases (not (contains_key name states) && not (contains_key full_name states))) [
        | inl unknown ↦ absurd (ground arith)
        | inr known ↦
            let h' : is_ok (after_delete name full_name result).0 ≡ true = ground arith in
            rw known (after_delete-states name full_name k result h' ∙ rw same refl)
      ]

  after_delete-config_manager :
      (name full_name : Text) (r : SegwireResult (Unit {0}) × ServiceState K R)
      → (after_delete name full_name r).1.config_manager ≡ r.1.config_manager
  after_delete-config_manager name full_name (ok _, svc) = refl
  after_delete-config_manager name full_name (err e, svc) = refl

  delete-config_manager :
      (name : Text) (svc : ServiceState K R)
      → (delete_namespace_by_name on name svc).1.config_manager ≡ svc.config_manager
  unfolding delete_namespace_by_name
  delete-config_manager name svc =
      let full_name = full_name_of svc name in
      let call = on.backend.delete_namespace full_name in
      let states = svc.state_manager.namespace_states in
      elim (Bool-cases (not (contains_key name states) && not (contains_key full_name states))) [
        | inl unknown ↦ rw unknown refl
        | inr known ↦ rw known (
            after_delete-config_manager name full_name (with_backend on call svc)
            ∙ (opened_call-SameManagers call svc (on.open_backend svc.real)).1)
      ]

  -- A state that has just been made.
  abbrev pub IsFresh : Text → Map NamespaceState → Type 0
  IsFresh full_name states =
      (s : NamespaceState) × (lookup full_name states ≡ some s)
      × (s.status ≡ creating)
      × (s.interfaces ≡ [])

  after_create_backend-IsFresh :
      {A : Type 0} (name full_name : Text) (r : SegwireResult A × ServiceState K R)
      → is_ok (after_create_backend on name full_name r).0 ≡ true
      → IsFresh full_name
          (after_create_backend on name full_name r).1.state_manager.namespace_states
        × ((after_create_backend on name full_name r).1.config_manager ≡ r.1.config_manager)
  unfolding update_namespace_state new_state
  after_create_backend-IsFresh name full_name (err e, svc) h = absurd (cc)
  after_create_backend-IsFresh name full_name (ok _, svc) h =
      let (now, k) = on.managed.now svc.state_manager.netlink_manager in
      let path = path_of (lookup full_name svc.config_manager.namespace_configs) in
      let made = new_state name full_name path now in
      ((made, rw (lookup-insert, text_eq_refl full_name) refl, refl, refl), refl)

  create-IsFresh :
      (c : NamespaceConfig) (svc : ServiceState K R)
      → is_ok (create_namespace_from_config on c svc).0 ≡ true
      → IsFresh
          (full_name_of svc c.namespace.name)
          (create_namespace_from_config on c svc).1.state_manager.namespace_states
        × ((create_namespace_from_config on c svc).1.config_manager ≡ svc.config_manager)
  unfolding create_namespace_from_config
  create-IsFresh c svc h =
      let full_name = full_name_of svc c.namespace.name in
      let call = on.backend.create_namespace full_name in
      let (fresh, same) =
        after_create_backend-IsFresh c.namespace.name full_name (with_backend on call svc) h in
      (fresh, same ∙ (opened_call-SameManagers call svc (on.open_backend svc.real)).1)

  -- The reply of an operation that succeeded.
  abbrev pub is_success : Result Text Reply → Bool
  is_success (ok (operation r)) = r.success
  is_success _ = false

  recreate_reply-state :
      (r : SegwireResult Text × ServiceState K R)
      → ((recreate_reply r).1 ≡ r.1) × (is_success (recreate_reply r).0 ≡ is_ok r.0)
  recreate_reply-state (ok full_name, svc) = (refl, refl)
  recreate_reply-state (err e, svc) = (refl, refl)

  recreate-IsFresh :
      (c : NamespaceConfig) (deleted : SegwireResult (Unit {0}) × ServiceState K R)
      → is_success (recreate on c deleted).0 ≡ true
      → IsFresh
          (full_name_of deleted.1 c.namespace.name)
          (recreate on c deleted).1.state_manager.namespace_states
        × ((recreate on c deleted).1.config_manager ≡ deleted.1.config_manager)
  recreate-IsFresh c (err e, svc) h = absurd (cc)
  recreate-IsFresh c (ok _, svc) h =
      let (same, success) = recreate_reply-state (create_namespace_from_config on c svc) in
      rw same (create-IsFresh c svc (sym success ∙ h))

  restart-found :
      (name : Text) (svc : ServiceState K R) (entry : NamespaceConfigEntry)
      → find_config svc name ≡ some entry
      → restart on name svc ≡ recreate on entry.config (delete_namespace_by_name on name svc)
  unfolding restart
  restart-found name svc entry found = rw (found, restart) refl

  authorize_exec-IsFresh :
      (host : Host) (name : Text) (svc : ServiceState K R)
      → IsFresh (full_name_of svc name) svc.state_manager.namespace_states
      → authorize_exec host svc name ≡ err (inactive name)
  unfolding authorize_exec exec_reply is_active
  authorize_exec-IsFresh host name svc (s, found, made, _) = rw (found, made) refl

  -- Behind a restart that succeeded, the namespace is as if it had just been made, without interfaces,
  -- and ExecAuthorize refuses it. The configuration is stored under the full name of its own name.
  pub restart-exec :
      (host : Host) (name : Text) (svc : ServiceState K R) (entry : NamespaceConfigEntry)
      → find_config svc name ≡ some entry
      → full_name_of svc name ≡ full_name_of svc entry.config.namespace.name
      → is_success (restart on name svc).0 ≡ true
      → IsFresh (full_name_of svc name) (restart on name svc).1.state_manager.namespace_states
        × (authorize_exec host (restart on name svc).1 name ≡ err (inactive name))
  restart-exec host name svc entry found same h =
      let deleted = delete_namespace_by_name on name svc in
      let kept = delete-config_manager name svc in
      let restarted = restart-found name svc entry found in
      let (fresh, config) =
        recreate-IsFresh entry.config deleted (ap (λ r. is_success r.0) (sym restarted) ∙ h) in
      let named : full_name_of deleted.1 entry.config.namespace.name ≡ full_name_of svc name =
        ap (λ m. full_namespace_name (namespace_prefix m) entry.config.namespace.name) kept
        ∙ sym same in
      let after : (restart on name svc).1.config_manager ≡ svc.config_manager =
        ap (λ r. r.1.config_manager) restarted ∙ (config ∙ kept) in
      let made : IsFresh (full_name_of svc name)
          (restart on name svc).1.state_manager.namespace_states =
        subst (λ r. IsFresh (full_name_of svc name) r.1.state_manager.namespace_states)
          (sym restarted)
          (subst
            (λ n. IsFresh n (recreate on entry.config deleted).1.state_manager.namespace_states)
            named fresh) in
      let found' : IsFresh (full_name_of (restart on name svc).1 name)
          (restart on name svc).1.state_manager.namespace_states =
        subst
          (λ m.
            IsFresh (full_namespace_name (namespace_prefix m) name)
              (restart on name svc).1.state_manager.namespace_states)
          (sym after) made in
      (made, authorize_exec-IsFresh host name (restart on name svc).1 found')
