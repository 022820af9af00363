-- ===== src/Service/Stages/Keeping.antt =====
-- What every stage of a call keeps.
use segwire.Base.{Option, none, some, ok, err, ◌≡◌, refl}
use segwire.Text.{Text}
use segwire.Error.{SegwireResult}
use segwire.NamespaceState.{new_state}
use segwire.ConfigManager.{NamespaceConfigEntry}
use segwire.StateManager.{remove_namespace_state}
use segwire.StateManager.Invariant.{update-IsNamed}
use segwire.Service.{ServiceState, Backends}
use segwire.Service.Operations.{with_backend}
use segwire.Service.Handlers.{find_config}
use segwire.Service.Keeping.{IsKept, opened_call-IsKept, remove_namespace_state-IsNamed}
use segwire.Service.Stages.{
  CallStage, no_call, searching, resolving, looking, deleting, forgetting, naming, making, locating,
  storing, advance, search_done, on_success,
}

module _ {K R : Type 0} where
  search_done-IsKept :
      (name : Text) (svc : ServiceState K R) (entry : Option NamespaceConfigEntry)
      → IsKept svc (search_done name svc entry).1
  search_done-IsKept name svc none = (refl, λ h. h)
  search_done-IsKept name svc (some entry) = (refl, λ h. h)

  on_success_same :
      {A : Type 0} (stage : CallStage) (r : SegwireResult A × ServiceState K R)
      → (on_success stage r).1 ≡ r.1
  on_success_same stage (ok a, svc) = refl
  on_success_same stage (err e, svc) = refl

  module _ (on : Backends K R) where
    -- A stage keeps the configurations, and each state under its own full name.
    pub advance-IsKept :
        (stage : CallStage) (svc : ServiceState K R) → IsKept svc (advance on stage svc).1
    unfolding advance
    advance-IsKept no_call svc = (refl, λ h. h)
    advance-IsKept (searching name) svc = search_done-IsKept name svc (find_config svc name)
    advance-IsKept (resolving name next) svc = (refl, λ h. h)
    advance-IsKept (looking name full_name next) svc = (refl, λ h. h)
    advance-IsKept (deleting name full_name next) svc =
        let call = on.backend.delete_namespace full_name in
        rw (on_success_same (forgetting name full_name next) (with_backend on call svc))
          (opened_call-IsKept on call svc (on.open_backend svc.real))
    advance-IsKept (forgetting name full_name next) svc = (
      refl,
      λ h.
          remove_namespace_state-IsNamed full_name (remove_namespace_state name svc.state_manager)
            (remove_namespace_state-IsNamed name svc.state_manager h),
    )
    advance-IsKept (naming c) svc = (refl, λ h. h)
    advance-IsKept (making c full_name) svc =
        let call = on.backend.create_namespace full_name in
        rw (on_success_same (locating c full_name) (with_backend on call svc))
          (opened_call-IsKept on call svc (on.open_backend svc.real))
    advance-IsKept (locating c full_name) svc = (refl, λ h. h)
    advance-IsKept (storing c full_name path) svc =
        let (now, k) = on.managed.now svc.state_manager.netlink_manager in
        (
          refl,
          λ h.
              update-IsNamed (new_state c.namespace.name full_name path now)
                (record svc.state_manager { netlink_manager = k }) h,
        )
