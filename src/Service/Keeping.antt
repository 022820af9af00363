-- ===== src/Service/Keeping.antt =====
-- What a call over D-Bus is to keep: the configurations, and each state under its own full name; and the
-- steps of a call that keep it.
use segwire.Base.{ok, err, ◌≡◌, refl}
use segwire.Text.{Text}
use segwire.Map.Entries.{Entries-remove}
use segwire.Error.{SegwireResult}
use segwire.StateManager.{NamespaceStateManager, remove_namespace_state}
use segwire.StateManager.Invariant.{IsNamed}
use segwire.Service.{ServiceState, Backends}
use segwire.Service.Operations.{opened_call}
use segwire.Service.Handlers.{recreate_reply, delete_reply}

pub remove_namespace_state-IsNamed :
    {K : Type 0} (name : Text) (m : NamespaceStateManager K)
    → IsNamed m
    → IsNamed (remove_namespace_state name m)
unfolding remove_namespace_state
remove_namespace_state-IsNamed name m h =
    Entries-remove (λ key s. s.full_name ≡ key) name m.namespace_states h

module _ {K R : Type 0} where
  -- The configurations stay, and so does the order of the states.
  abbrev pub IsKept : ServiceState K R → ServiceState K R → Type 0
  IsKept before after =
      (after.config_manager ≡ before.config_manager)
      × (IsNamed before.state_manager → IsNamed after.state_manager)

  module _ (on : Backends K R) where
    pub opened_call-IsKept :
        {A : Type 0} (call : R → SegwireResult A × R) (svc : ServiceState K R)
        (opened : SegwireResult (Unit {0}) × R)
        → IsKept svc (opened_call call svc opened).1
    opened_call-IsKept call svc (ok _, r) = (refl, λ h. h)
    opened_call-IsKept call svc (err e, r) = (refl, λ h. h)

    pub delete_reply_same :
        (name : Text) (r : SegwireResult (Unit {0}) × ServiceState K R)
        → (delete_reply name r).1 ≡ r.1
    delete_reply_same name (ok _, svc) = refl
    delete_reply_same name (err e, svc) = refl

    pub recreate_reply_same :
        (r : SegwireResult Text × ServiceState K R) → (recreate_reply r).1 ≡ r.1
    recreate_reply_same (ok full_name, svc) = refl
    recreate_reply_same (err e, svc) = refl
