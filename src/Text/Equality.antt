-- ===== src/Text/Equality.antt =====
-- The equality test of texts, and its law.
use segwire.Base.{ℕ, Bool, true, false, ◌&&◌, List, [], ◌∷◌, ◌≡◌, refl, ◌↔◌, ◌⊎◌, arith, ◌==◌}

unfoldable pub text_eq : List ℕ → List ℕ → Bool
text_eq [] [] = true
text_eq [] (d ∷ t) = false
text_eq (c ∷ s) [] = false
text_eq (c ∷ s) (d ∷ t) = c == d && text_eq s t

pub text_eq_refl : (s : List ℕ) → text_eq s s ≡ true
unfolding text_eq
text_eq_refl [] = refl
text_eq_refl (c ∷ s) = ground (arith, text_eq_refl s)

eq_of_text_eq : (s t : List ℕ) → text_eq s t ≡ true → s ≡ t
unfolding text_eq
eq_of_text_eq [] [] h = refl
eq_of_text_eq [] (d ∷ t) h = cc
eq_of_text_eq (c ∷ s) [] h = cc
eq_of_text_eq (c ∷ s) (d ∷ t) h = ground (arith, eq_of_text_eq s t)

text_eq_of_eq : (s t : List ℕ) → s ≡ t → text_eq s t ≡ true
text_eq_of_eq s t h = rw h (text_eq_refl t)

pub text_eq_iff : (s t : List ℕ) → (text_eq s t ≡ true) ↔ (s ≡ t)
text_eq_iff s t = (eq_of_text_eq s t, text_eq_of_eq s t)

-- To split on whether two texts are equal.
pub text_eq_cases : (s t : List ℕ) → (s ≡ t) ⊎ (text_eq s t ≡ false)
text_eq_cases s t = ground (arith, text_eq_iff s t)
