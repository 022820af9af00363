-- ===== src/Service/Authorization.antt =====
-- Which calls of the D-Bus methods change or reveal anything.
use segwire.Base.{
  Option, none, some, Result, ok, err, ◌>>=◌, ◌≡◌, ◌⊎◌, inl, inr, refl, ap, sym, ◌∙◌, >>=-eq-ok,
  map_err-eq-ok,
}
use segwire.Text.{Text}
use segwire.Map.{lookup}
use segwire.Config.Validate.{Base64}
use segwire.Utils.Address.{UnicodeDigits}
use segwire.Policykit.{
  Authorities, ProcessInfo, action_mappings, IsGranted, check_authorization_iff,
}
use segwire.Service.{Host, ServiceState, Backends, create_method_err}
use segwire.Service.Operations.{authorize}
use segwire.Service.Handlers.{
  Request, list_namespaces, reload_configuration, get_daemon_status, get_namespace_status,
  delete_namespace, validate_configuration, restart_namespace, exec_authorize, Reply, action_of,
  check_argument,
}
use segwire.Service.Dispatch.{authorized_call, perform_request, handle}

-- The two calls that change namespaces.
abbrev pub IsChange : Request → Type 0
IsChange (delete_namespace name) = Unit
IsChange (restart_namespace name) = Unit
IsChange _ = ⊥

module _ {K R : Type 0} ⦃u : UnicodeDigits⦄ ⦃b : Base64⦄ (on : Backends K R) (host : Host) where
  perform_request_changes :
      (request : Request) (svc : ServiceState K R)
      → ((perform_request on host request svc).1 ≡ svc) ⊎ IsChange request
  unfolding perform_request
  perform_request_changes list_namespaces svc = inl refl
  perform_request_changes reload_configuration svc = inl refl
  perform_request_changes get_daemon_status svc = inl refl
  perform_request_changes (get_namespace_status name) svc = inl refl
  perform_request_changes (delete_namespace name) svc = inr tt
  perform_request_changes (validate_configuration path) svc = inl refl
  perform_request_changes (restart_namespace name) svc = inr tt
  perform_request_changes (exec_authorize name) svc = inl refl

  -- A call that gets through its two checks.
  abbrev pub IsAuthorized : Text → Request → ServiceState K R → Type 0
  IsAuthorized sender request svc =
      (check_argument host request ≡ ok tt)
      × (authorize svc.authorizer (action_of request) sender ≡ ok tt)

  abbrev pub checks : Text → Request → ServiceState K R → Result Text (Unit {0})
  checks sender request svc =
      check_argument host request >>= λ _. authorize svc.authorizer (action_of request) sender

  pub checks-cases :
      (sender : Text) (request : Request) (svc : ServiceState K R)
      → ((e : Text) × (checks sender request svc ≡ err e))
        ⊎ ((checks sender request svc ≡ ok tt) × IsAuthorized sender request svc)
  checks-cases sender request svc = go (checks sender request svc) refl
    where
      go :
          (r : Result Text (Unit {0}))
          → checks sender request svc ≡ r
          → ((e : Text) × (checks sender request svc ≡ err e))
            ⊎ ((checks sender request svc ≡ ok tt) × IsAuthorized sender request svc)
      go (err e) h = inl (e, h)
      go (ok _) h =
          let (_, valid, granted) = >>=-eq-ok (check_argument host request) _ h in
          inr (h, (valid, granted))

  -- Whom the check lets pass: where there is no authorizer, everybody; else whom it grants the action.
  abbrev pub IsAdmitted : Option Authorities → Text → Request → Type 0
  IsAdmitted authorizer sender request =
      (authorizer ≡ none)
      ⊎ ((a : Authorities) × (action_id : Text) × (process : ProcessInfo) × (authorizer ≡ some a)
          × (lookup (action_of request) action_mappings ≡ some action_id)
          × (a.sender_process_info sender ≡ ok process)
          × IsGranted process (a.policykit process action_id))

  authorize-IsAdmitted :
      (authorizer : Option Authorities) (sender : Text) (request : Request)
      → authorize authorizer (action_of request) sender ≡ ok tt
      → IsAdmitted authorizer sender request
  unfolding authorize
  authorize-IsAdmitted none sender request h = inl refl
  authorize-IsAdmitted (some a) sender request h =
      let (action_id, process, known, found, granted) =
        (check_authorization_iff a (action_of request) sender).0
          (map_err-eq-ok create_method_err _ h) in
      inr (a, action_id, process, refl, known, found, granted)

  -- A call changes the state only if it deletes or restarts a namespace, its argument is valid, and either
  -- the authorizer grants its sender the action or there is no authorizer: then every sender may.
  pub handle_changes :
      (sender : Text) (request : Request) (svc : ServiceState K R)
      → ((handle on host sender request svc).1 ≡ svc)
        ⊎ (IsChange request
            × (check_argument host request ≡ ok tt)
            × IsAdmitted svc.authorizer sender request)
  unfolding handle
  handle_changes sender request svc = elim (checks-cases sender request svc) [
    | inl (e, refused) ↦ inl (ap (λ r. (authorized_call on host r request svc).1) refused)
    | inr (passed, (valid, granted)) ↦ elim (perform_request_changes request svc) [
      | inl same ↦ inl (ap (λ r. (authorized_call on host r request svc).1) passed ∙ same)
      | inr change ↦ inr (change, valid, authorize-IsAdmitted svc.authorizer sender request granted)
    ]
  ]

  -- A call that is answered is performed.
  pub handle-answered :
      (sender : Text) (request : Request) (svc : ServiceState K R) (reply : Reply)
      → (handle on host sender request svc).0 ≡ ok reply
      → IsAuthorized sender request svc × ((perform_request on host request svc).0 ≡ ok reply)
  unfolding handle
  handle-answered sender request svc reply h = elim (checks-cases sender request svc) [
    | inl (e, refused) ↦
        absurd
          (let failed = sym (ap (λ r. (authorized_call on host r request svc).0) refused) ∙ h in cc)
    | inr (passed, granted) ↦
        (granted, sym (ap (λ r. (authorized_call on host r request svc).0) passed) ∙ h)
  ]

  -- A reply goes to senders alone whom the authorizer grants the action of the call.
  pub handle-authorized :
      (a : Authorities) (sender : Text) (request : Request) (reply : Reply) (svc : ServiceState K R)
      → svc.authorizer ≡ some a
      → (handle on host sender request svc).0 ≡ ok reply
      → (action_id : Text) × (process : ProcessInfo) × (lookup (action_of request) action_mappings
          ≡ some action_id)
        × (a.sender_process_info sender ≡ ok process)
        × IsGranted process (a.policykit process action_id)
  unfolding authorize
  handle-authorized a sender request reply svc with_authorizer h =
      let (_, granted) = (handle-answered sender request svc reply h).0 in
      (check_authorization_iff a (action_of request) sender).0 (
        map_err-eq-ok create_method_err _
          (ap (λ o. authorize o (action_of request) sender) (sym with_authorizer) ∙ granted))
