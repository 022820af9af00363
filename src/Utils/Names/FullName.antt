-- ===== src/Utils/Names/FullName.antt =====
-- The full name of a namespace: cut back into its parts, and accepted by the check of names.
use segwire.Base.{
  ◌+◌, ◌≤◌, true, some, [], ◌∷◌, ◌++◌, ◌≡◌, ◌↔◌, ok, length, length-append, all, all-append, arith,
  append_assoc, sym, ◌∙◌,
}
use segwire.Text.{Text}
use segwire.Text.Prefix.{strip_prefix_iff}
use segwire.Utils.Names.{
  is_name_char, validate_namespace_name, generate_full_namespace_name, extract_namespace_name,
}
use segwire.Utils.Names.Validity.{IsName, validate_namespace_name_iff}

split_full_name :
    (prefix name : Text)
    → generate_full_namespace_name prefix name ≡ (prefix ++ (b'-' ∷ [])) ++ name
unfolding generate_full_namespace_name
split_full_name prefix name = sym (append_assoc prefix (b'-' ∷ []) name)

-- A full name is cut into exactly the prefix and the name that it was made of, and nothing else is
-- cut: extraction and generation are inverse to one another.
pub extract_namespace_name_iff :
    (prefix name full_name : Text)
    → (extract_namespace_name prefix full_name ≡ some name)
      ↔ (full_name ≡ generate_full_namespace_name prefix name)
unfolding extract_namespace_name
extract_namespace_name_iff prefix name full_name = (
  λ h. (strip_prefix_iff _ full_name name).0 h ∙ sym (split_full_name prefix name),
  λ e. (strip_prefix_iff _ full_name name).1 (e ∙ split_full_name prefix name),
)

pub length-full_name :
    (prefix name : Text)
    → length (generate_full_namespace_name prefix name) ≡ length prefix + length name + 1
unfolding generate_full_namespace_name
length-full_name prefix name = omega (arith, length-append prefix (b'-' ∷ name))

all-name_chars : (name : Text) → IsName 63 name → all is_name_char name ≡ true
all-name_chars [] h = absurd h
all-name_chars (c ∷ s) (h, k, b) = ground arith

-- For a valid prefix and a valid name, the full name passes the check that the creation of a
-- namespace makes exactly if the two together have at most 62 characters. Each bound alone, 32 and
-- 63, allows more.
pub validate-generate_full_namespace_name :
    (prefix name : Text)
    → IsName 32 prefix
    → IsName 63 name
    → (validate_namespace_name (generate_full_namespace_name prefix name) ≡ ok tt)
      ↔ (length prefix + length name ≤ 62)
unfolding generate_full_namespace_name
validate-generate_full_namespace_name [] name h n = absurd h
validate-generate_full_namespace_name (c ∷ prefix) name (h, k, b) n =
    let full = length-append prefix (b'-' ∷ name) in
    (
      λ v. let (_, _, l) = (validate_namespace_name_iff _).0 v in omega (arith, full),
      λ l.
          (validate_namespace_name_iff _).1
            (h, rw all-append (ground (arith, all-name_chars name n)), omega (arith, full)),
    )
