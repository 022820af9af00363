-- ===== src/Netlink/Refinement.antt =====
-- The simulated backend against an abstract network: a set of names.
use segwire.Base.{Bool, not, ◌&&◌, ◌||◌, List, [], ◌∷◌, is_ok, ◌≡◌, refl, ◌∙◌, ap}
use segwire.Text.{Text}
use segwire.Text.Equality.{text_eq}
use segwire.Utils.Names.{validate_namespace_name}
use segwire.Netlink.Simulated.{
  SimulatedState, present, create_simulated, delete_simulated, create_simulated_lem,
  delete_simulated_lem,
}

pub data NamespaceCall : Type 0 where
  create delete : Text → NamespaceCall

-- A call of the simulation: whether it succeeded, and the state behind it.
abbrev pub call_simulated : NamespaceCall → SimulatedState → Bool × SimulatedState
call_simulated (create name) st = let (r, st') = create_simulated name st in (is_ok r, st')
call_simulated (delete name) st = let (r, st') = delete_simulated name st in (is_ok r, st')

unfoldable pub run_simulated : List NamespaceCall → SimulatedState → List Bool × SimulatedState
unfolding create_simulated delete_simulated
run_simulated [] st = ([], st)
run_simulated (call ∷ calls) st =
    let (success, st') = call_simulated call st in
    let (rest, last) = run_simulated calls st' in (success ∷ rest, last)

-- The abstract network: the set of the names that exist, of which only valid ones are put in and out.
abbrev pub Names : Type 0
Names = Text → Bool

abbrev is_valid : Text → Bool
is_valid name = is_ok (validate_namespace_name name)

abbrev pub call_abstract : NamespaceCall → Names → Bool × Names
call_abstract (create name) names =
    let success = is_valid name && not (names name) in
    (success, λ other. names other || (text_eq name other && success))
call_abstract (delete name) names =
    let success = is_valid name && names name in
    (success, λ other. names other && not (text_eq name other && success))

unfoldable pub run_abstract : List NamespaceCall → Names → List Bool × Names
run_abstract [] names = ([], names)
run_abstract (call ∷ calls) names =
    let (success, names') = call_abstract call names in
    let (rest, last) = run_abstract calls names' in (success ∷ rest, last)

-- A state that holds exactly the names of the set.
abbrev pub Represents : SimulatedState → Names → Type 0
Represents st names = (name : Text) → present name st ≡ names name

call_refines :
    (call : NamespaceCall) (st : SimulatedState) (names : Names)
    → Represents st names
    → ((call_simulated call st).0 ≡ (call_abstract call names).0)
      × Represents (call_simulated call st).1 (call_abstract call names).1
call_refines (create name) st names h = (
  (create_simulated_lem name name st).0 ∙ ap (λ there. is_valid name && not there) (h name),
  λ other.
      rw
        (
          (create_simulated_lem name other st).1,
          (create_simulated_lem name name st).0,
          h name,
          h other,
        )
        refl,
)
call_refines (delete name) st names h = (
  (delete_simulated_lem name name st).0 ∙ ap (λ there. is_valid name && there) (h name),
  λ other.
      rw
        (
          (delete_simulated_lem name other st).1,
          (delete_simulated_lem name name st).0,
          h name,
          h other,
        )
        refl,
)

-- Every sequence of creations and deletions succeeds and fails in the simulation as it does on a set of
-- names, and leaves the names of that set.
pub run_simulated-run_abstract :
    (calls : List NamespaceCall) (st : SimulatedState) (names : Names)
    → Represents st names
    → ((run_simulated calls st).0 ≡ (run_abstract calls names).0)
      × Represents (run_simulated calls st).1 (run_abstract calls names).1
unfolding run_simulated run_abstract
run_simulated-run_abstract [] st names h = (refl, h)
run_simulated-run_abstract (call ∷ calls) st names h =
    let (success, later) = call_refines call st names h in
    let (results, last) =
      run_simulated-run_abstract calls (call_simulated call st).1 (call_abstract call names).1
        later in
    (rw (success, results) refl, last)
