-- ===== src/Utils/Address.antt =====
-- `validate_ip_address` and `validate_cidr` (utils.rs).
use segwire.Base.{
  ℕ, ◌<◌, Bool, List, [], ◌∷◌, ◌++◌, ◌≡◌, leb, ok, err, ensure, ok_or, for_each, ◌>>◌, ◌>>=◌,
  if◌then◌else◌,
}
use segwire.Text.{Text, lit, is_hex_digit, is_digit}
use segwire.Text.Split.{split}
use segwire.Text.Numbers.{parse_uint, decimal}
use segwire.Regex.{Regex, class, seq, char, times, up_to, is_match}
use segwire.Error.{SegwireResult, validation}

-- The class `\d` of the crate `regex`: the decimal digits of every script. Of the ASCII characters it
-- holds the digits 0 to 9 alone, which is documented.
pub record UnicodeDigits : Type 0 where
  pub decimal_digit : ℕ → Bool
  pub decimal_digit-ascii : (c : ℕ) → c < 128 → decimal_digit c ≡ is_digit c

module _ ⦃u : UnicodeDigits⦄ where
  -- \d{1,3}
  abbrev octet : Regex
  octet = seq (class u.decimal_digit) (up_to 2 (class u.decimal_digit))

  -- ^(\d{1,3}\.){3}\d{1,3}$
  abbrev pub ipv4_pattern : Regex
  ipv4_pattern = seq (times 3 (seq octet (char b'.'))) octet

-- ^([0-9a-fA-F]{0,4}:){2,7}[0-9a-fA-F]{0,4}$
abbrev group : Regex
group = up_to 4 (class is_hex_digit)

abbrev pub ipv6_pattern : Regex
ipv6_pattern = seq (times 2 (seq group (char b':'))) (seq (up_to 5 (seq group (char b':'))) group)

-- let _num: u8 = octet.parse()
unfoldable pub check_octet : Text → Text → SegwireResult (Unit {0})
check_octet ip part = do
  n ← ok_or (parse_uint 255 part) (validation (lit "Invalid IP address: " ++ ip))
  ok tt

module _ ⦃u : UnicodeDigits⦄ where
  unfoldable pub validate_ip_address : Text → SegwireResult (Unit {0})
  validate_ip_address ip =
      if is_match ipv4_pattern ip
      then for_each (check_octet ip) (split b'.' ip)
      else if is_match ipv6_pattern ip
      then ok tt
      else err (validation (lit "Invalid IP address format: " ++ ip))

  abbrev pub max_prefix : Text → ℕ
  max_prefix ip = if is_match ipv4_pattern ip then 32 else 128

  unfoldable pub validate_cidr_parts : List Text → SegwireResult (Unit {0})
  validate_cidr_parts (ip ∷ bits ∷ []) = do
    validate_ip_address ip
    prefix ← ok_or (parse_uint 255 bits) (validation (lit "Invalid prefix length in CIDR"))
    ensure (leb prefix (max_prefix ip)) (
        validation (
          lit "Prefix length cannot exceed "
          ++ (decimal (max_prefix ip) ++ lit " for this IP version")))
  validate_cidr_parts parts =
      err (validation (lit "CIDR notation must contain exactly one '/' character"))

  unfoldable pub validate_cidr : Text → SegwireResult (Unit {0})
  unfolding validate_cidr_parts
  validate_cidr cidr = validate_cidr_parts (split b'/' cidr)
