-- ===== src/Regex/Classes.antt =====
-- The matcher on the repetition of a character class is a test of every character.
use segwire.Base.{ℕ, Bool, false, ◌&&◌, [], ◌∷◌, ◌≡◌, refl, all, Bool-cases, inl, inr}
use segwire.Text.{Text}
use segwire.Regex.{never, class, seq, star, is_match}

is_match-never : (s : Text) → is_match never s ≡ false
unfolding is_match
is_match-never [] = refl
is_match-never (c ∷ s) = is_match-never s

pub is_match-star : (p : ℕ → Bool) (s : Text) → is_match (star (class p)) s ≡ all p s
unfolding is_match
is_match-star p [] = refl
is_match-star p (c ∷ s) = elim (Bool-cases (p c)) [
  | inl h ↦ rw h (is_match-star p s)
  | inr h ↦ rw h (is_match-never s)
]

-- One character of a first class, then characters of a second.
pub is_match-seq :
    (p q : ℕ → Bool) (c : ℕ) (s : Text)
    → is_match (seq (class p) (star (class q))) (c ∷ s) ≡ (p c && all q s)
unfolding is_match
is_match-seq p q c s = elim (Bool-cases (p c)) [
  | inl h ↦ rw h (is_match-star q s)
  | inr h ↦ rw h (is_match-never s)
]
