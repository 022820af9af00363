-- ===== src/Utils/Domain.antt =====
-- `validate_domain_name` (utils.rs).
use segwire.Base.{[], ◌∷◌, ◌++◌, not, ◌==◌, leb, ensure, for_each, ◌>>◌, if◌then◌else◌}
use segwire.Text.{Text, lit, is_empty, byte_len, is_alphanumeric}
use segwire.Text.Split.{split}
use segwire.Regex.{Regex, class, seq, star, optional, char, is_match}
use segwire.Utils.Names.{is_name_char}
use segwire.Error.{SegwireResult, validation}

-- [a-zA-Z0-9]([a-zA-Z0-9-]*[a-zA-Z0-9])?
abbrev pub label_pattern : Regex
label_pattern =
    seq (class is_alphanumeric) (optional (seq (star (class is_name_char)) (class is_alphanumeric)))

-- ^label(\.label)*$
abbrev pub domain_pattern : Regex
domain_pattern = seq label_pattern (star (seq (char b'.') label_pattern))

-- domain.strip_suffix('.'), or the domain
unfoldable pub strip_dot : Text → Text
strip_dot [] = []
strip_dot (c ∷ []) = if c == b'.' then [] else c ∷ []
strip_dot (c ∷ d ∷ s) = c ∷ strip_dot (d ∷ s)

unfoldable pub check_label : Text → SegwireResult (Unit {0})
check_label label =
    ensure (leb (byte_len label) 63) (validation (lit "Domain label cannot exceed 63 characters"))

unfoldable pub validate_domain_name : Text → SegwireResult (Unit {0})
unfolding strip_dot check_label
validate_domain_name domain = do
  ensure (not (is_empty domain)) (validation (lit "Domain name cannot be empty"))
  ensure (leb (byte_len domain) 253) (validation (lit "Domain name cannot exceed 253 characters"))
  ensure (is_match domain_pattern (strip_dot domain))
      (validation (lit "Invalid domain name format: " ++ domain))
  for_each check_label (split b'.' (strip_dot domain))
