-- ===== src/Policykit.antt =====
-- crates/segwire-daemon/src/policykit.rs: who may call which method. What the message bus and PolicyKit
-- answer is a parameter.
use segwire.Base.{
  ℕ, Bool, true, false, Option, none, some, [], ◌∷◌, ◌++◌, ◌==◌, ok, err, ok_or, ◌>>=◌, ◌≡◌, ◌↔◌,
  ◌⊎◌, inl, inr, refl, arith, if◌then◌else◌, >>=-eq-ok,
}
use segwire.Text.{Text, lit}
use segwire.Map.{Map, lookup}
use segwire.Error.{SegwireError, SegwireResult, permission}

pub record ProcessInfo : Type 0 where
  pub pid : ℕ
  pub uid : ℕ

pub data AuthorizationResult : Type 0 where
  authorized not_authorized authentication_required : AuthorizationResult
  failed : Text → AuthorizationResult

-- The calls of the authorizer to other services.
pub record Authorities : Type 0 where
  -- get_sender_process_info: GetConnectionUnixProcessID and GetConnectionUnixUser
  pub sender_process_info : Text → SegwireResult ProcessInfo
  -- CheckAuthorization: is_authorized and is_challenge, or `none` where the call fails
  pub policykit : ProcessInfo → Text → Option (Bool × Bool)

abbrev status_action : Text
status_action = lit "org.segwire.namespace.status"

abbrev create_action : Text
create_action = lit "org.segwire.namespace.create"

abbrev delete_action : Text
delete_action = lit "org.segwire.namespace.delete"

abbrev manage_action : Text
manage_action = lit "org.segwire.namespace.manage"

abbrev exec_action : Text
exec_action = lit "org.segwire.namespace.exec"

-- PolicyKitAuthorizer::new
unfoldable pub action_mappings : Map Text
unfolding lit
action_mappings =
    (lit "list", status_action)
    ∷ (lit "status", status_action)
    ∷ (lit "create", create_action)
    ∷ (lit "delete", delete_action)
    ∷ (lit "restart", delete_action)
    ∷ (lit "reload", manage_action)
    ∷ (lit "validate", status_action)
    ∷ (lit "exec", exec_action)
    ∷ []

unfoldable pub uid_fallback : ProcessInfo → AuthorizationResult
uid_fallback process = if process.uid == 0 then authorized else not_authorized

abbrev reply_result : ProcessInfo → Option (Bool × Bool) → AuthorizationResult
reply_result process none = uid_fallback process
reply_result process (some (true, is_challenge)) = authorized
reply_result process (some (false, true)) = authentication_required
reply_result process (some (false, false)) = not_authorized

unfoldable pub call_policykit_check_authorization :
    Authorities → ProcessInfo → Text → AuthorizationResult
unfolding uid_fallback
call_policykit_check_authorization a process action_id =
    reply_result process (a.policykit process action_id)

unfoldable pub grant : Text → AuthorizationResult → SegwireResult (Unit {0})
unfolding lit
grant action authorized = ok tt
grant action not_authorized = err (permission (lit "Not authorized to perform action: " ++ action))
grant action authentication_required =
    err (permission (lit "Interactive authentication required for action: " ++ action))
grant action (failed reason) = err (permission reason)

unfoldable pub unknown_action : Text → SegwireError
unfolding lit
unknown_action action = permission (lit "Unknown action: " ++ action)

unfoldable pub check_authorization : Authorities → Text → Text → SegwireResult (Unit {0})
unfolding action_mappings call_policykit_check_authorization grant unknown_action lookup
check_authorization a action sender = do
  action_id ← ok_or (lookup action action_mappings) (unknown_action action)
  process ← a.sender_process_info sender
  grant action (call_policykit_check_authorization a process action_id)

-- PolicyKit says yes; or it cannot be asked, and the process is root's.
abbrev pub IsGranted : ProcessInfo → Option (Bool × Bool) → Type 0
IsGranted process reply =
    ((challenge : Bool) × (reply ≡ some (true, challenge))) ⊎ ((reply ≡ none) × (process.uid ≡ 0))

ok_or-eq-ok : {A E : Type 0} (o : Option A) (e : E) {a : A} → ok_or o e ≡ ok a → o ≡ some a
ok_or-eq-ok none e h = absurd (cc)
ok_or-eq-ok (some a) e h = cc

grant_iff :
    (action : Text) (process : ProcessInfo) (reply : Option (Bool × Bool))
    → (grant action (reply_result process reply) ≡ ok tt) ↔ IsGranted process reply
unfolding grant uid_fallback
grant_iff action process none = (
  λ h. inr (refl, ground arith),
  λ h. elim h [ inl (c, e) ↦ absurd (cc) | inr (e, root) ↦ ground arith ],
)
grant_iff action process (some (true, challenge)) = (λ h. inl (challenge, refl), λ h. refl)
grant_iff action process (some (false, true)) = (
  λ h. absurd (cc),
  λ h. elim h [ inl (c, e) ↦ absurd (ground arith) | inr (e, root) ↦ absurd (cc) ],
)
grant_iff action process (some (false, false)) = (
  λ h. absurd (cc),
  λ h. elim h [ inl (c, e) ↦ absurd (ground arith) | inr (e, root) ↦ absurd (cc) ],
)

-- A sender is authorized exactly if the action is a known one, the sender's process is known, and
-- PolicyKit grants the action to it, or PolicyKit cannot be asked and the process is root's.
pub check_authorization_iff :
    (a : Authorities) (action sender : Text)
    → (check_authorization a action sender ≡ ok tt) ↔ (
        (action_id : Text) × (process : ProcessInfo) × (lookup action action_mappings
          ≡ some action_id)
        × (a.sender_process_info sender ≡ ok process)
        × IsGranted process (a.policykit process action_id))
unfolding check_authorization call_policykit_check_authorization
check_authorization_iff a action sender = (
  λ h.
      (let (action_id, known, h') =
          >>=-eq-ok (ok_or (lookup action action_mappings) (unknown_action action)) _ h in
        let (process, found, granted) = >>=-eq-ok (a.sender_process_info sender) _ h' in
        (
          action_id,
          process,
          ok_or-eq-ok (lookup action action_mappings) (unknown_action action) known,
          found,
          (grant_iff action process (a.policykit process action_id)).0 granted,
        )),
  λ (action_id, process, known, found, granted).
      rw (known, found) ((grant_iff action process (a.policykit process action_id)).1 granted),
)
