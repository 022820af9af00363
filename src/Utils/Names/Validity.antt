-- ===== src/Utils/Names/Validity.antt =====
-- What the checks of names accept, said without the patterns.
use segwire.Base.{
  ℕ, suc, ◌≤◌, Bool, true, false, [], ◌∷◌, ◌≡◌, refl, ◌↔◌, ◌==◌, ok, length, all, arith, ap, inl,
  inr, Bool-cases,
}
use segwire.Text.{Text, byte_len, is_letter, contains_char}
use segwire.Regex.Classes.{is_match-seq}
use segwire.Utils.Names.{
  is_name_char, is_interface_char, validate_namespace_name, validate_namespace_prefix,
  validate_interface_name,
}

-- A name of ASCII characters takes one byte for each.
pub byte_len-interface_chars : (s : Text) → all is_interface_char s ≡ true → byte_len s ≡ length s
unfolding byte_len
byte_len-interface_chars [] h = refl
byte_len-interface_chars (c ∷ s) h = ground (arith, byte_len-interface_chars s)

byte_len-name_chars : (s : Text) → all is_name_char s ≡ true → byte_len s ≡ length s
unfolding byte_len
byte_len-name_chars [] h = refl
byte_len-name_chars (c ∷ s) h = ground (arith, byte_len-name_chars s)

-- A letter, then letters, digits and hyphens, at most `max` of them in all.
abbrev pub IsName : ℕ → Text → Type 0
IsName max [] = ⊥
IsName max (c ∷ s) = (is_letter c ≡ true) × (all is_name_char s ≡ true) × (suc (length s) ≤ max)

pub byte_len-name :
    (c : ℕ) (s : Text)
    → is_letter c ≡ true
    → all is_name_char s ≡ true
    → byte_len (c ∷ s) ≡ suc (length s)
unfolding byte_len
byte_len-name c s h k = ground (arith, byte_len-name_chars s)

-- A namespace name is accepted exactly if it is a letter followed by letters, digits and hyphens,
-- at most 63 characters in all.
pub validate_namespace_name_iff :
    (name : Text) → (validate_namespace_name name ≡ ok tt) ↔ IsName 63 name
unfolding validate_namespace_name
validate_namespace_name_iff [] = (λ h. absurd (cc), λ h. absurd h)
validate_namespace_name_iff (c ∷ s) = (
  λ h. ground (arith, is_match-seq is_letter is_name_char c s, byte_len-name c s),
  λ (p, q, r). ground (arith, is_match-seq is_letter is_name_char c s, byte_len-name c s),
)

-- A prefix is accepted exactly if it is such a name of at most 32 characters.
pub validate_namespace_prefix_iff :
    (prefix : Text) → (validate_namespace_prefix prefix ≡ ok tt) ↔ IsName 32 prefix
unfolding validate_namespace_prefix
validate_namespace_prefix_iff [] = (λ h. absurd (cc), λ h. absurd h)
validate_namespace_prefix_iff (c ∷ s) = (
  λ h. ground (arith, is_match-seq is_letter is_name_char c s, byte_len-name c s),
  λ (p, q, r). ground (arith, is_match-seq is_letter is_name_char c s, byte_len-name c s),
)

-- An interface name is accepted exactly if it has 1 to 15 characters, each a letter, a digit, `_` or
-- `-`: what Linux takes, with no path separator, dot or space.
pub validate_interface_name_iff :
    (name : Text)
    → (validate_interface_name name ≡ ok tt)
      ↔ (1 ≤ length name) × (length name ≤ 15) × (all is_interface_char name ≡ true)
unfolding validate_interface_name byte_len
validate_interface_name_iff [] = (λ h. absurd (cc), λ (h, _, _). absurd (omega arith))
validate_interface_name_iff (c ∷ s) = (
  λ h. ground (
    arith,
    is_match-seq is_interface_char is_interface_char c s,
    byte_len-interface_chars (c ∷ s),
  ),
  λ (p, q, r). ground (
    arith,
    is_match-seq is_interface_char is_interface_char c s,
    byte_len-interface_chars (c ∷ s),
  ),
)

-- What no name may hold.
pub char_absent :
    (p : ℕ → Bool) (d : ℕ) (s : Text) → p d ≡ false → all p s ≡ true → contains_char d s ≡ false
unfolding contains_char
char_absent p d [] h k = refl
char_absent p d (c ∷ s) h k = elim (Bool-cases (c == d)) [
  | inl same ↦ let e : c ≡ d = ground arith in absurd (ground (arith, ap p e))
  | inr other ↦ ground (arith, char_absent p d s)
]
