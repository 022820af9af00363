-- ===== src/Security.antt =====
-- The sanitising of values and names in crates/segwire-common/src/security.rs.
pub mod Names
pub mod Files
pub mod Verdicts
use segwire.Base.{
  ℕ, Bool, true, false, not, ◌&&◌, ◌||◌, Option, none, some, List, [], ◌∷◌, ◌++◌, ◌==◌, ltb, leb,
  if◌then◌else◌, Result, ok, err, ensure, ◌>>=◌, ◌>>◌,
}
use segwire.Text.{Text, lit, byte_len, contains_char, starts_with_char, is_control}
use segwire.Text.Numbers.{decimal}
use segwire.Error.{SegwireResult, SegwireError, validation}
use segwire.Base.{◌+◌, ◌-◌, ◌/◌, ◌%◌}

-- `{:04X}` of a control character, which has two digits.
abbrev hex_digit : ℕ → ℕ
hex_digit n = if ltb n 10 then b'0' + n else b'A' + (n - 10)

abbrev code_point : ℕ → Text
code_point c = b'0' ∷ b'0' ∷ hex_digit (c / 16) ∷ hex_digit (c % 16) ∷ []

-- A control character that no line of text has.
abbrev pub is_dangerous : ℕ → Bool
is_dangerous c = is_control c && not (c == b'\t') && not (c == b'\n') && not (c == b'\r')

unfoldable pub check_characters : Text → Text → SegwireResult (Unit {0})
check_characters field_name [] = ok tt
check_characters field_name (c ∷ s) =
    let rest = check_characters field_name s in
    if is_dangerous c
    then err (
        validation (
          lit "Field '" ++ (field_name ++ (lit "' contains control character U+" ++ code_point c))))
    else rest

abbrev pub max_value_length : ℕ
max_value_length = 4096

unfoldable pub sanitize_config_value : Text → Text → SegwireResult (Unit {0})
unfolding check_characters
sanitize_config_value value field_name = do
  ensure (not (contains_char 0 value))
      (validation (lit "Field '" ++ (field_name ++ lit "' contains null byte")))
  check_characters field_name value
  ensure (leb (byte_len value) max_value_length) (
      validation (
        lit "Field '"
        ++ (field_name
            ++ (lit "' exceeds maximum length of "
                ++ (decimal max_value_length
                    ++ (lit " characters (" ++ (decimal (byte_len value) ++ lit " given)")))))))

unfoldable pub sanitize_namespace_name : Text → SegwireResult (Unit {0})
unfolding sanitize_config_value
sanitize_namespace_name name = do
  sanitize_config_value name (lit "namespace_name")
  ensure (not (contains_char b'/' name || contains_char b'\\' name))
      (validation (lit "Namespace name '" ++ (name ++ lit "' contains path separator characters")))
  ensure (not (starts_with_char b'.' name)) (
      validation
        (lit "Namespace name '" ++ (name ++ lit "' starts with a dot, which is not allowed")))
  ensure (not (starts_with_char b'-' name)) (
      validation
        (lit "Namespace name '" ++ (name ++ lit "' starts with a hyphen, which is not allowed")))

unfoldable pub sanitize_interface_name : Text → SegwireResult (Unit {0})
unfolding sanitize_config_value
sanitize_interface_name name = do
  sanitize_config_value name (lit "interface_name")
  ensure (leb (byte_len name) 15) (
      validation
        (lit "Interface name '" ++ (name ++ lit "' exceeds Linux maximum of 15 characters")))
  ensure (not (contains_char b'/' name || contains_char b' ' name))
      (validation (lit "Interface name '" ++ (name ++ lit "' contains invalid characters")))
