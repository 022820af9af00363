-- ===== src/Regex.antt =====
-- The patterns that the program hands to the crate `regex`, as terms, with the language of a pattern
-- as a relation and a matcher by derivatives. All patterns of the program that are tested by
-- `is_match` stand between `^` and `$`, so a match is a match of the whole text.
pub mod Matching
pub mod Classes
use segwire.Base.{
  ℕ, zero, suc, Bool, true, false, ◌&&◌, ◌||◌, List, [], ◌∷◌, ◌++◌, if◌then◌else◌, ◌≡◌, ◌==◌,
}
use segwire.Text.{Text}

pub data Regex : Type 0 where
  never epsilon : Regex
  class : (ℕ → Bool) → Regex
  seq alt : Regex → Regex → Regex
  star : Regex → Regex

-- The language of a pattern.
pub data Matches : Regex → Text → Type 0 where
  match_epsilon : Matches epsilon []
  match_class : {p : ℕ → Bool} (c : ℕ) → p c ≡ true → Matches (class p) (c ∷ [])
  match_seq :
      {r q : Regex} (s t u : Text) → u ≡ s ++ t → Matches r s → Matches q t → Matches (seq r q) u
  match_left : {r q : Regex} {s : Text} → Matches r s → Matches (alt r q) s
  match_right : {r q : Regex} {s : Text} → Matches q s → Matches (alt r q) s
  match_none : {r : Regex} → Matches (star r) []
  match_more :
      {r : Regex} (s t u : Text)
      → u ≡ s ++ t
      → Matches r s
      → Matches (star r) t
      → Matches (star r) u

-- r+, r?, a literal character, r{n}, r{0,n}
abbrev pub plus : Regex → Regex
plus r = seq r (star r)

abbrev pub optional : Regex → Regex
optional r = alt epsilon r

abbrev pub char : ℕ → Regex
char c = class (λ d. d == c)

abbrev pub times : ℕ → Regex → Regex
times zero r = epsilon
times (suc n) r = seq r (times n r)

abbrev pub up_to : ℕ → Regex → Regex
up_to zero r = epsilon
up_to (suc n) r = alt epsilon (seq r (up_to n r))

-- Joins that drop what cannot match, so that derivatives stay small.
unfoldable pub join_seq : Regex → Regex → Regex
join_seq never q = never
join_seq epsilon q = q
join_seq r q = seq r q

unfoldable pub join_alt : Regex → Regex → Regex
join_alt never q = q
join_alt r never = r
join_alt r q = alt r q

unfoldable pub nullable : Regex → Bool
nullable never = false
nullable epsilon = true
nullable (class p) = false
nullable (seq r q) = nullable r && nullable q
nullable (alt r q) = nullable r || nullable q
nullable (star r) = true

unfoldable pub derivative : ℕ → Regex → Regex
unfolding join_seq join_alt nullable
derivative c never = never
derivative c epsilon = never
derivative c (class p) = if p c then epsilon else never
derivative c (seq r q) =
    let left = join_seq (derivative c r) q in
    let right = derivative c q in if nullable r then join_alt left right else left
derivative c (alt r q) = join_alt (derivative c r) (derivative c q)
derivative c (star r) = join_seq (derivative c r) (star r)

-- Regex::is_match
unfoldable pub is_match : Regex → Text → Bool
unfolding derivative nullable
is_match r [] = nullable r
is_match r (c ∷ s) = is_match (derivative c r) s
