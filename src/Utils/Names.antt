-- ===== src/Utils/Names.antt =====
-- Names of interfaces, namespaces and prefixes (utils.rs), and the full name of a namespace.
pub mod Validity
pub mod FullName
use segwire.Base.{
  ℕ, Bool, Option, none, some, List, [], ◌∷◌, ◌++◌, not, ◌||◌, ◌==◌, leb, Result, ok, err, ensure,
  ◌>>◌,
}
use segwire.Text.{
  Text, lit, byte_len, is_empty, is_letter, is_alphanumeric, strip_prefix, starts_with,
}
use segwire.Regex.{Regex, class, seq, star, plus, is_match}
use segwire.Error.{SegwireResult, validation}

-- [a-zA-Z0-9_-] and [a-zA-Z0-9-]
abbrev pub is_interface_char : ℕ → Bool
is_interface_char c = is_alphanumeric c || c == b'_' || c == b'-'

abbrev pub is_name_char : ℕ → Bool
is_name_char c = is_alphanumeric c || c == b'-'

-- ^[a-zA-Z0-9_-]+$
abbrev pub interface_pattern : Regex
interface_pattern = plus (class is_interface_char)

-- ^[a-zA-Z][a-zA-Z0-9-]*$
abbrev pub name_pattern : Regex
name_pattern = seq (class is_letter) (star (class is_name_char))

unfoldable pub validate_interface_name : Text → SegwireResult (Unit {0})
validate_interface_name name = do
  ensure (not (is_empty name)) (validation (lit "Interface name cannot be empty"))
  ensure (leb (byte_len name) 15) (validation (lit "Interface name cannot exceed 15 characters"))
  ensure (is_match interface_pattern name)
      (validation (lit "Interface name contains invalid characters"))

unfoldable pub validate_namespace_name : Text → SegwireResult (Unit {0})
validate_namespace_name name = do
  ensure (not (is_empty name)) (validation (lit "Namespace name cannot be empty"))
  ensure (leb (byte_len name) 63) (validation (lit "Namespace name cannot exceed 63 characters"))
  ensure (is_match name_pattern name) (
      validation (
        lit
          "Namespace name must start with a letter and contain only alphanumeric characters and hyphens"))

unfoldable pub validate_namespace_prefix : Text → SegwireResult (Unit {0})
validate_namespace_prefix prefix = do
  ensure (not (is_empty prefix)) (validation (lit "Namespace prefix cannot be empty"))
  ensure (leb (byte_len prefix) 32)
      (validation (lit "Namespace prefix cannot exceed 32 characters"))
  ensure (is_match name_pattern prefix) (
      validation (
        lit
          "Namespace prefix must start with a letter and contain only alphanumeric characters and hyphens"))

-- format!("{}-{}", prefix, name)
unfoldable pub generate_full_namespace_name : Text → Text → Text
generate_full_namespace_name prefix name = prefix ++ (b'-' ∷ name)

unfoldable pub extract_namespace_name : Text → Text → Option Text
extract_namespace_name prefix full_name = strip_prefix (prefix ++ (b'-' ∷ [])) full_name

unfoldable pub namespace_matches_prefix : Text → Text → Bool
unfolding starts_with
namespace_matches_prefix prefix full_name = starts_with (prefix ++ (b'-' ∷ [])) full_name
