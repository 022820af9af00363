-- ===== src/Text/Split.antt =====
-- `str::split`, `str::split_once` and `str::rfind` by a character, `str::trim`, `str::lines`.
use segwire.Base.{
  ℕ, Bool, false, Option, none, some, List, [], ◌∷◌, ◌++◌, ◌==◌, if◌then◌else◌, ◌≡◌, refl, arith,
  All, Bool-cases, inl, inr,
}
use segwire.Text.{Text, contains_char, is_whitespace}

-- A character in front of the first piece.
abbrev pub push_head : ℕ → List Text → List Text
push_head d [] = (d ∷ []) ∷ []
push_head d (p ∷ ps) = (d ∷ p) ∷ ps

unfoldable pub split : ℕ → Text → List Text
split c [] = [] ∷ []
split c (d ∷ s) = let rest = split c s in if d == c then [] ∷ rest else push_head d rest

-- A character in front of the first part of a cut.
abbrev prepend : ℕ → Option (Text × Text) → Option (Text × Text)
prepend d none = none
prepend d (some (a, b)) = some (d ∷ a, b)

-- The text before the first `c`, and the text behind it.
unfoldable pub split_once : ℕ → Text → Option (Text × Text)
split_once c [] = none
split_once c (d ∷ s) = if d == c then some ([], s) else prepend d (split_once c s)

abbrev or_here : Bool → Text → Option (Text × Text) → Option (Text × Text)
or_here here s none = if here then some ([], s) else none
or_here here s (some found) = some found

-- The text before the last `c`, and the text behind it: `rfind`, and the two slices.
unfoldable pub rsplit_once : ℕ → Text → Option (Text × Text)
rsplit_once c [] = none
rsplit_once c (d ∷ s) = or_here (d == c) s (prepend d (rsplit_once c s))

unfoldable pub trim_start : Text → Text
unfolding is_whitespace
trim_start [] = []
trim_start (c ∷ s) = let rest = trim_start s in if is_whitespace c then rest else c ∷ s

-- A character before what is left of the end, unless all of it goes.
abbrev pub keep : ℕ → Text → Text
keep c [] = if is_whitespace c then [] else c ∷ []
keep c (d ∷ s) = c ∷ d ∷ s

unfoldable pub trim_end : Text → Text
unfolding is_whitespace
trim_end [] = []
trim_end (c ∷ s) = keep c (trim_end s)

unfoldable pub trim : Text → Text
unfolding trim_start trim_end
trim s = trim_end (trim_start s)

-- A line without the carriage return at its end.
unfoldable pub strip_return : Text → Text
strip_return [] = []
strip_return (c ∷ []) = if c == 13 then [] else c ∷ []
strip_return (c ∷ d ∷ s) = c ∷ strip_return (d ∷ s)

-- The pieces between line feeds; an empty last piece is no line, and a last piece with no line feed
-- behind it keeps a carriage return.
unfoldable pub finish_lines : List Text → List Text
unfolding strip_return
finish_lines [] = []
finish_lines ([] ∷ []) = []
finish_lines ((c ∷ s) ∷ []) = (c ∷ s) ∷ []
finish_lines (l ∷ m ∷ ls) = strip_return l ∷ finish_lines (m ∷ ls)

unfoldable pub lines : Text → List Text
unfolding split finish_lines
lines s = finish_lines (split 10 s)

-- A cut behind a character that is not the separator.
prepend_sound :
    (c d : ℕ) (s : Text) (o : Option (Text × Text)) (a b : Text)
    → (d == c) ≡ false
    → ((a' b' : Text) → o ≡ some (a', b') → (s ≡ a' ++ c ∷ b') × (contains_char c a' ≡ false))
    → prepend d o ≡ some (a, b)
    → (d ∷ s ≡ a ++ c ∷ b) × (contains_char c a ≡ false)
unfolding contains_char
prepend_sound c d s none a b other ih h = absurd (cc)
prepend_sound c d s (some (a', b')) a b other ih h =
    let (whole, clean) = ih a' b' refl in (ground arith, ground arith)

-- The pieces of a cut put together again, with no `c` before the place of the cut.
pub split_once_sound :
    (c : ℕ) (s a b : Text)
    → split_once c s ≡ some (a, b)
    → (s ≡ a ++ c ∷ b) × (contains_char c a ≡ false)
unfolding split_once contains_char
split_once_sound c [] a b h = absurd (cc)
split_once_sound c (d ∷ s) a b h = elim (Bool-cases (d == c)) [
  | inl same ↦ (ground arith, ground arith)
  | inr other ↦ prepend_sound c d s (split_once c s) a b other (split_once_sound c s) (ground arith)
]

no_separator_push_head :
    (c d : ℕ) (ps : List Text)
    → (d == c) ≡ false
    → All (λ p. contains_char c p ≡ false) ps
    → All (λ p. contains_char c p ≡ false) (push_head d ps)
unfolding contains_char
no_separator_push_head c d [] other h = ground arith
no_separator_push_head c d (p ∷ ps) other h = (ground (arith, h.0), h.1)

-- No piece holds the separator.
pub split-no_separator : (c : ℕ) (s : Text) → All (λ p. contains_char c p ≡ false) (split c s)
unfolding split contains_char
split-no_separator c [] = (refl, tt)
split-no_separator c (d ∷ s) = elim (Bool-cases (d == c)) [
  | inl same ↦ rw same (refl, split-no_separator c s)
  | inr other ↦ rw other (no_separator_push_head c d (split c s) other (split-no_separator c s))
]
