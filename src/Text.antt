-- ===== src/Text.antt =====
-- Rust's `str` as the list of its characters (Unicode scalar values), with the operations of the
-- standard library that the program calls. `len` counts bytes of UTF-8, as in the source.
pub mod Equality
pub mod Numbers
pub mod Split
pub mod Prefix
pub mod Trim
use Prim.Native.Char.{code}
use segwire.Base.{
  ℕ, zero, suc, ◌+◌, String, Bool, true, false, not, ◌&&◌, ◌||◌, Option, none, some, List, [], ◌∷◌,
  ◌++◌, ltb, leb, ◌==◌, if◌then◌else◌, any, all,
}

abbrev pub Text : Type 0
Text = List ℕ

-- A literal of the source.
unfoldable pub lit : String → Text
lit String.[] = []
lit (String.◌∷◌ c s) = code c ∷ lit s

-- The bytes that UTF-8 takes for a character.
abbrev pub utf8_width : ℕ → ℕ
utf8_width c = if ltb c 0x80 then 1 else if ltb c 0x800 then 2 else if ltb c 0x1_0000 then 3 else 4

-- str::len
unfoldable pub byte_len : Text → ℕ
byte_len [] = 0
byte_len (c ∷ s) = utf8_width c + byte_len s

-- str::is_empty
abbrev pub is_empty : Text → Bool
is_empty [] = true
is_empty (c ∷ s) = false

-- str::contains with a character
unfoldable pub contains_char : ℕ → Text → Bool
contains_char c [] = false
contains_char c (d ∷ s) = d == c || contains_char c s

-- str::strip_prefix; str::starts_with
unfoldable pub strip_prefix : Text → Text → Option Text
strip_prefix [] s = some s
strip_prefix (p ∷ ps) [] = none
strip_prefix (p ∷ ps) (c ∷ s) = let rest = strip_prefix ps s in if c == p then rest else none

abbrev pub is_some {ℓ} : {A : Type ℓ} → Option A → Bool
is_some none = false
is_some (some a) = true

unfoldable pub starts_with : Text → Text → Bool
unfolding strip_prefix
starts_with p s = is_some (strip_prefix p s)

-- str::starts_with with a character
abbrev pub starts_with_char : ℕ → Text → Bool
starts_with_char c [] = false
starts_with_char c (d ∷ s) = d == c

-- str::ends_with with a character
unfoldable pub ends_with_char : ℕ → Text → Bool
ends_with_char c [] = false
ends_with_char c (d ∷ []) = d == c
ends_with_char c (d ∷ e ∷ s) = ends_with_char c (e ∷ s)

-- str::contains with a text
unfoldable pub contains_text : Text → Text → Bool
unfolding starts_with
contains_text p [] = is_empty p
contains_text p (c ∷ s) = starts_with p (c ∷ s) || contains_text p s

-- The character classes of the source's patterns, and `char::is_control` (category Cc).
abbrev pub in_range : ℕ → ℕ → ℕ → Bool
in_range lo hi c = leb lo c && leb c hi

abbrev pub is_letter : ℕ → Bool
is_letter c = in_range b'a' b'z' c || in_range b'A' b'Z' c

abbrev pub is_digit : ℕ → Bool
is_digit c = in_range b'0' b'9' c

abbrev pub is_alphanumeric : ℕ → Bool
is_alphanumeric c = is_letter c || is_digit c

abbrev pub is_hex_digit : ℕ → Bool
is_hex_digit c = is_digit c || in_range b'a' b'f' c || in_range b'A' b'F' c

abbrev pub is_control : ℕ → Bool
is_control c = ltb c 0x20 || in_range 0x7f 0x9f c

-- char::is_whitespace (the property White_Space)
unfoldable pub is_whitespace : ℕ → Bool
is_whitespace c =
    in_range 9 13 c
    || c == 0x20
    || c == 0x85
    || c == 0xa0
    || c == 0x1680
    || in_range 0x2000 0x200a c
    || c == 0x2028
    || c == 0x2029
    || c == 0x202f
    || c == 0x205f
    || c == 0x3000
