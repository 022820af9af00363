-- ===== src/Text/Trim.antt =====
-- Laws of `str::trim`, `str::lines` and their parts.
use segwire.Base.{
  ℕ, Bool, true, false, not, ◌||◌, List, [], ◌∷◌, ◌++◌, ◌==◌, all, ◌≡◌, refl, sym, ◌∙◌, ap, arith,
  Bool-cases, inl, inr, ==_iff,
}
use segwire.Text.{Text, is_empty, contains_char, is_whitespace}
use segwire.Text.Split.{split, finish_lines, lines, strip_return, trim_end, keep}

pub split-nonempty : (c : ℕ) (s : Text) → (l : Text) × (ls : List Text) × (split c s ≡ l ∷ ls)
unfolding split
split-nonempty c [] = ([], [], refl)
split-nonempty c (d ∷ s) =
    let (l, ls, h) = split-nonempty c s in
    elim (Bool-cases (d == c)) [
      | inl same ↦ ([], split c s, rw same refl)
      | inr other ↦ (d ∷ l, ls, rw (other, h) refl)
    ]

split-line : (x s : Text) → contains_char 10 x ≡ false → split 10 (x ++ 10 ∷ s) ≡ x ∷ split 10 s
unfolding split contains_char
split-line [] s h = refl
split-line (c ∷ x) s h = ground (arith, split-line x s)

-- The first line of a text.
pub lines_cons :
    (x s : Text) → contains_char 10 x ≡ false → lines (x ++ 10 ∷ s) ≡ strip_return x ∷ lines s
unfolding lines finish_lines
lines_cons x s h = let (l, ls, more) = split-nonempty 10 s in rw (split-line x s h, more) refl

trim_end-tail : (c d : ℕ) (s t : Text) → keep c t ≡ c ∷ d ∷ s → t ≡ d ∷ s
trim_end-tail c d s [] h = ground arith
trim_end-tail c d s (x ∷ t) h = ground arith

-- A text that does not end with white space has no carriage return at its end.
pub strip_return-trim_end : (s : Text) → trim_end s ≡ s → strip_return s ≡ s
unfolding strip_return trim_end
strip_return-trim_end [] h = refl
strip_return-trim_end (c ∷ []) h = ground arith
strip_return-trim_end (c ∷ d ∷ s) h =
    ap (λ t. c ∷ t) (strip_return-trim_end (d ∷ s) (trim_end-tail c d s (trim_end (d ∷ s)) h))

-- A text that does not end with white space, with another in front.
pub trim_end-append :
    (p s : Text) → is_empty s ≡ false → trim_end s ≡ s → trim_end (p ++ s) ≡ p ++ s
unfolding trim_end
trim_end-append [] s some h = h
trim_end-append (c ∷ p) s some h = rw (trim_end-append p s some h) (keep-append c p s some)
  where
    keep-append : (c : ℕ) (p s : Text) → is_empty s ≡ false → keep c (p ++ s) ≡ c ∷ (p ++ s)
    keep-append c [] [] some = absurd (cc)
    keep-append c [] (d ∷ s) some = refl
    keep-append c (e ∷ p) s some = refl

-- A text of which no character is white space.
abbrev pub is_solid : Text → Bool
is_solid s = all (λ c. not (is_whitespace c)) s

pub trim_end-is_solid : (s : Text) → is_solid s ≡ true → trim_end s ≡ s
unfolding trim_end
trim_end-is_solid [] h = refl
trim_end-is_solid (c ∷ []) h = ground arith
trim_end-is_solid (c ∷ d ∷ s) h = rw (trim_end-is_solid (d ∷ s) (ground arith)) refl

newline-is_whitespace : is_whitespace 10 ≡ true
unfolding is_whitespace
newline-is_whitespace = refl

no_newline : (c : ℕ) → is_whitespace c ≡ false → (c == 10) ≡ false
no_newline c h = elim (Bool-cases (c == 10)) [
  | inl same ↦
      absurd (cc (sym (ap is_whitespace ((==_iff c 10).0 same) ∙ newline-is_whitespace) ∙ h))
  | inr other ↦ other
]

pub contains_char-is_solid : (s : Text) → is_solid s ≡ true → contains_char 10 s ≡ false
unfolding contains_char
contains_char-is_solid [] h = refl
contains_char-is_solid (c ∷ s) h = ground (arith, no_newline c, contains_char-is_solid s)

pub contains_char-append :
    (c : ℕ) (s t : Text) → contains_char c (s ++ t) ≡ (contains_char c s || contains_char c t)
unfolding contains_char
contains_char-append c [] t = refl
contains_char-append c (d ∷ s) t = ground (arith, contains_char-append c s t)

pub is_solid_cons :
    (c : ℕ) (s : Text) → is_solid (c ∷ s) ≡ true → (is_whitespace c ≡ false) × (is_solid s ≡ true)
is_solid_cons c s h = ground arith
