-- ===== src/Security/Names.antt =====
-- The names that utils.rs accepts, under the checks of security.rs.
use segwire.Base.{◌≤◌, true, [], ◌∷◌, ok, ◌≡◌, refl, arith, length, all}
use segwire.Text.{Text, lit}
use segwire.Utils.Names.{
  is_name_char, is_interface_char, validate_namespace_name, validate_interface_name,
}
use segwire.Utils.Names.Validity.{
  validate_namespace_name_iff, validate_interface_name_iff, char_absent, byte_len-interface_chars,
}
use segwire.Security.{
  check_characters, sanitize_config_value, sanitize_namespace_name, sanitize_interface_name,
}

check_characters-interface_chars :
    (field s : Text) → all is_interface_char s ≡ true → check_characters field s ≡ ok tt
unfolding check_characters
check_characters-interface_chars field [] h = refl
check_characters-interface_chars field (c ∷ s) h =
    ground (arith, check_characters-interface_chars field s)

interface_chars : (s : Text) → all is_name_char s ≡ true → all is_interface_char s ≡ true
interface_chars [] h = refl
interface_chars (c ∷ s) h = ground (arith, interface_chars s)

sanitize_config_value-interface_chars :
    (field s : Text)
    → all is_interface_char s ≡ true
    → length s ≤ 4096
    → sanitize_config_value s field ≡ ok tt
unfolding sanitize_config_value
sanitize_config_value-interface_chars field s h bound = ground (
  arith,
  check_characters-interface_chars field s h,
  char_absent is_interface_char 0 s refl h,
  byte_len-interface_chars s h,
)

-- An interface name that the check of names accepts is safe by the checks of security.rs.
pub validate-sanitize_interface_name :
    (name : Text) → validate_interface_name name ≡ ok tt → sanitize_interface_name name ≡ ok tt
unfolding sanitize_interface_name
validate-sanitize_interface_name name v =
    let (some_char, short, chars) = (validate_interface_name_iff name).0 v in
    ground (
      arith,
      sanitize_config_value-interface_chars (lit "interface_name") name chars (omega arith),
      char_absent is_interface_char b'/' name refl chars,
      char_absent is_interface_char b' ' name refl chars,
      byte_len-interface_chars name chars,
    )

-- A namespace name that the check of names accepts is safe by the checks of security.rs: no control
-- character, no separator, no dot or hyphen in front.
pub validate-sanitize_namespace_name :
    (name : Text) → validate_namespace_name name ≡ ok tt → sanitize_namespace_name name ≡ ok tt
unfolding sanitize_namespace_name
validate-sanitize_namespace_name [] v = absurd ((validate_namespace_name_iff []).0 v)
validate-sanitize_namespace_name (c ∷ s) v =
    let (letter, chars, short) = (validate_namespace_name_iff (c ∷ s)).0 v in
    let all_chars : all is_interface_char (c ∷ s) ≡ true = ground (arith, interface_chars s) in
    ground (
      arith,
      sanitize_config_value-interface_chars (lit "namespace_name") (c ∷ s) all_chars (omega arith),
      char_absent is_interface_char b'/' (c ∷ s) refl all_chars,
      char_absent is_interface_char b'\\' (c ∷ s) refl all_chars,
    )
