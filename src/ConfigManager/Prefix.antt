-- ===== src/ConfigManager/Prefix.antt =====
-- `matches_namespace_prefix` and `generate_full_namespace_name` of the daemon's config.rs.
use segwire.Base.{
  Bool, true, false, ◌||◌, Option, none, some, [], ◌∷◌, ◌==◌, if◌then◌else◌, ◌≡◌, Bool-cases, inl,
  inr,
}
use segwire.Text.{Text, strip_prefix}
use segwire.Text.Prefix.{strip_prefix-append}
use segwire.Utils.Names.{generate_full_namespace_name}

-- What may stand behind the prefix: nothing, or a separator.
abbrev separated : Option Text → Bool
separated none = false
separated (some []) = true
separated (some (c ∷ s)) = c == b'-' || c == b'_'

unfoldable pub matches_prefix : Text → Text → Bool
matches_prefix prefix name = separated (strip_prefix prefix name)

unfoldable pub full_namespace_name : Text → Text → Text
unfolding generate_full_namespace_name
full_namespace_name prefix name =
    if matches_prefix prefix name then name else generate_full_namespace_name prefix name

matches_prefix-generate :
    (prefix name : Text) → matches_prefix prefix (generate_full_namespace_name prefix name) ≡ true
unfolding matches_prefix generate_full_namespace_name
matches_prefix-generate prefix name = rw strip_prefix-append

-- Every full name bears the prefix, so that the daemon sees the namespace as its own.
pub matches_prefix-full_namespace_name :
    (prefix name : Text) → matches_prefix prefix (full_namespace_name prefix name) ≡ true
unfolding full_namespace_name
matches_prefix-full_namespace_name prefix name = elim (Bool-cases (matches_prefix prefix name)) [
  | inl h ↦ rw h h
  | inr h ↦ rw h (matches_prefix-generate prefix name)
]

-- A full name is its own full name.
pub full_namespace_name_idem :
    (prefix name : Text)
    → full_namespace_name prefix (full_namespace_name prefix name) ≡ full_namespace_name prefix name
full_namespace_name_idem prefix name =
    unfold full_namespace_name in rw (matches_prefix-full_namespace_name prefix name)
