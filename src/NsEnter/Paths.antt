-- ===== src/NsEnter/Paths.antt =====
-- Which paths the helper opens.
use segwire.Base.{false, ◌++◌, ok, ◌≡◌, ◌↔◌, arith, Option-cases, inl, inr}
use segwire.Text.{Text, lit, is_empty, contains_char, contains_text, strip_prefix}
use segwire.Text.Prefix.{strip_prefix_iff}
use segwire.NsEnter.{System, allowed_ns_prefix, check_ns_name, validate_ns_path}

-- What stands behind the prefix: one component, which is not the parent directory.
abbrev pub IsNamespaceFile : System → Text → Text → Type 0
IsNamespaceFile sys path ns_name =
    (path ≡ allowed_ns_prefix ++ ns_name)
    × (is_empty ns_name ≡ false)
    × (contains_char b'/' ns_name ≡ false)
    × (contains_text (lit "..") ns_name ≡ false)
    × (contains_char 0 path ≡ false)
    × (sys.symlink_metadata path ≡ ok false)

check_ns_name_iff :
    (sys : System) (path ns_name : Text)
    → (check_ns_name sys path ns_name ≡ ok tt) ↔ (
        (is_empty ns_name ≡ false)
        × (contains_char b'/' ns_name ≡ false)
        × (contains_text (lit "..") ns_name ≡ false)
        × (contains_char 0 path ≡ false)
        × (sys.symlink_metadata path ≡ ok false))
unfolding check_ns_name
check_ns_name_iff sys path ns_name = (λ h. ground arith, λ h. ground arith)

-- A path is accepted exactly if it is one component below /run/netns, without `..` and without null
-- bytes, that exists and is no symbolic link.
pub validate_ns_path_iff :
    (sys : System) (path : Text)
    → (validate_ns_path sys path ≡ ok tt) ↔ ((ns_name : Text) × IsNamespaceFile sys path ns_name)
unfolding validate_ns_path strip_prefix lit
validate_ns_path_iff sys path = (
  λ h. elim (Option-cases (strip_prefix allowed_ns_prefix path)) [
    | inl missing ↦ absurd (ground arith)
    | inr (ns_name, found) ↦
        let same = (strip_prefix_iff allowed_ns_prefix path ns_name).0 found in
        let (some_name, one, up, null, there) =
          (check_ns_name_iff sys path ns_name).0 (ground arith) in
        (ns_name, (same, some_name, one, up, null, there))
  ],
  λ (ns_name, (same, some_name, one, up, null, there)).
      rw ((strip_prefix_iff allowed_ns_prefix path ns_name).1 same)
        ((check_ns_name_iff sys path ns_name).1 (some_name, one, up, null, there)),
)
