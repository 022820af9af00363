-- ===== src/Base/Lists.antt =====
-- Lists measured by native numbers, Boolean quantifiers and the predicates by recursion.
use Prim.Native.Nat.{ℕ, suc, ◌+◌}
use mathlib.Core.Path.{◌≡◌, refl}
use mathlib.Core.Bool.{Bool, true, false, ◌&&◌, ◌||◌}
use mathlib.Core.List.{List, [], ◌∷◌, ◌++◌}
use native.Mathlib.Omega.{arith}
use segwire.Base.Tests.{if◌then◌else◌}
use segwire.Base.Results.{Result, ok, for_each, >>-eq-ok}

module _ {ℓ} {A : Type ℓ} where
  abbrev pub length : List A → ℕ
  length [] = 0
  length (x ∷ xs) = suc (length xs)

  abbrev pub all : (A → Bool) → List A → Bool
  all p [] = true
  all p (x ∷ xs) = p x && all p xs

  abbrev pub any : (A → Bool) → List A → Bool
  any p [] = false
  any p (x ∷ xs) = p x || any p xs

  -- The elements that pass the test.
  unfoldable pub filter : (A → Bool) → List A → List A
  filter p [] = []
  filter p (x ∷ xs) = let rest = filter p xs in if p x then x ∷ rest else rest

  pub length-append : (xs ys : List A) → length (xs ++ ys) ≡ length xs + length ys
  length-append [] ys = omega arith
  length-append (x ∷ xs) ys = omega (arith, length-append xs ys)

  pub all-append : (p : A → Bool) (xs ys : List A) → all p (xs ++ ys) ≡ (all p xs && all p ys)
  all-append p [] ys = refl
  all-append p (x ∷ xs) ys = ground (arith, all-append p xs ys)

module _ {ℓ κ} {A : Type ℓ} where
  abbrev pub All : (A → Type κ) → List A → Type κ
  All P [] = Unit
  All P (x ∷ xs) = P x × All P xs

module _ {ℓ κ} {A : Type ℓ} {E : Type κ} where
  -- A loop of checks succeeds exactly if every check does.
  pub for_each-eq-ok :
      (f : A → Result E (Unit {0})) (xs : List A)
      → for_each f xs ≡ ok tt
      → All (λ x. f x ≡ ok tt) xs
  unfolding for_each
  for_each-eq-ok f [] h = tt
  for_each-eq-ok f (x ∷ xs) h =
      let (here, later) = >>-eq-ok (f x) (for_each f xs) h in (here, for_each-eq-ok f xs later)
