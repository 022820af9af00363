-- ===== src/Utils/Substitute/Laws.antt =====
-- What a successful substitution leaves, and texts that need none.
use segwire.Base.{
  ℕ, zero, suc, ◌+◌, false, Option, ok, ◌≡◌, refl, arith, Bool-cases, inl, inr, >>=-eq-ok,
}
use segwire.Text.{Text}
use segwire.Map.{Map}
use segwire.Utils.Substitute.{
  pieces, has_reference, substitute_loop, substitute_env_vars, max_iterations, substitute_pieces,
}

module _ (system_env : Text → Option Text) (config_env : Map Text) where
  -- Only a round that finds no reference ends the loop with a result.
  substitute_loop-no_reference :
      (left count : ℕ) (input result : Text)
      → count + left ≡ max_iterations
      → substitute_loop system_env config_env left count input ≡ ok result
      → has_reference (pieces result) ≡ false
  unfolding substitute_loop
  substitute_loop-no_reference zero count input result bound h = absurd (ground arith)
  substitute_loop-no_reference (suc left) count input result bound h =
      elim (Bool-cases (has_reference (pieces input))) [
        | inl more ↦
            let (next, _, h') =
              >>=-eq-ok (substitute_pieces system_env config_env (pieces input)) _ (rw more at h) in
            substitute_loop-no_reference left (count + 1) next result (omega arith) h'
        | inr done ↦ ground arith
      ]

  -- A substitution that succeeds leaves no reference: the result holds no match of the pattern,
  -- however the variables refer to one another.
  pub substitute_env_vars-no_reference :
      (input result : Text)
      → substitute_env_vars system_env config_env input ≡ ok result
      → has_reference (pieces result) ≡ false
  unfolding substitute_env_vars
  substitute_env_vars-no_reference input result h =
      substitute_loop-no_reference max_iterations 0 input result refl h

  -- A text with no reference is returned as it is, whatever the variables are.
  pub substitute_env_vars_plain :
      (input : Text)
      → has_reference (pieces input) ≡ false
      → substitute_env_vars system_env config_env input ≡ ok input
  unfolding substitute_env_vars
  substitute_env_vars_plain input h = rw h
