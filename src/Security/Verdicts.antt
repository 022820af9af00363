-- ===== src/Security/Verdicts.antt =====
-- What the checks of crates/segwire-common/src/security.rs come to: when a file passes, and where a path
-- that is accepted leads.
use segwire.Base.{
  Bool, true, false, not, ◌&&◌, Option, none, some, Result, ok, err, ◌≡◌, ◌↔◌, refl, arith,
  Bool-cases, inl, inr,
}
use segwire.Text.{Text, is_empty, contains_char}
use segwire.Security.Files.{
  sanitize_config_path, resolve_in, is_prefix, components, Metadata, FileFacts, SecurityCheckResult,
  new_result, add_error, add_warning, when, has_parent_dir, check_path_traversal, is_world_writable,
  check_unix_permissions, extension_warning, add_traversal, check_regular, check_resolved,
  check_config_file_security,
}

-- A warning does not change the verdict.
when-add_warning :
    (b : Bool) (msg : Text) (r : SecurityCheckResult)
    → (when b (add_warning msg) r).passed ≡ r.passed
when-add_warning true msg r = refl
when-add_warning false msg r = refl

check_unix_permissions-passed :
    (facts : FileFacts) (m : Metadata) (path : Text) (r : SecurityCheckResult)
    → (check_unix_permissions facts m path r).passed ≡ (not (is_world_writable m.mode) && r.passed)
unfolding check_unix_permissions
check_unix_permissions-passed facts m path r =
    simp (when-add_warning) (go (is_world_writable m.mode) _)
  where
    go : (b : Bool) (msg : Text) → (when b (add_error msg) r).passed ≡ (not b && r.passed)
    go true msg = refl
    go false msg = refl

extension_warning-passed :
    (ext : Option Text) (r : SecurityCheckResult) → (extension_warning ext r).passed ≡ r.passed
extension_warning-passed none r = refl
extension_warning-passed (some ext) r = when-add_warning _ _ r

check_regular-passed :
    (facts : FileFacts) (path canonical : Text) (m : Metadata) (r : SecurityCheckResult)
    → m.is_file ≡ true
    → (check_regular facts path canonical (ok m) r).passed
      ≡ (not (is_world_writable m.mode) && r.passed)
check_regular-passed facts path canonical m r h =
    simp (h, extension_warning-passed, check_unix_permissions-passed, when-add_warning)

add_traversal-passed :
    (path : Text)
    → (add_traversal (check_path_traversal path) (new_result path)).passed
      ≡ not (has_parent_dir path)
unfolding check_path_traversal
add_traversal-passed path = elim (Bool-cases (has_parent_dir path)) [
  | inl up ↦ rw up refl
  | inr plain ↦ rw plain refl
]

-- A regular file that not everyone may write, named by a path without `..`.
abbrev pub IsSafeFile : FileFacts → Text → Type 0
IsSafeFile facts path =
    (canonical : Text) × (m : Metadata) × (facts.canonicalize path ≡ ok canonical)
    × (facts.metadata canonical ≡ ok m)
    × (m.is_file ≡ true)
    × (is_world_writable m.mode ≡ false)
    × (has_parent_dir path ≡ false)

check_metadata_iff :
    (facts : FileFacts) (path canonical : Text) (m : Result Text Metadata)
    → facts.canonicalize path ≡ ok canonical
    → facts.metadata canonical ≡ m
    → ((check_regular facts path canonical m
          (add_traversal (check_path_traversal path) (new_result path))).passed
        ≡ true)
      ↔ IsSafeFile facts path
check_metadata_iff facts path canonical (err e) there known =
    (λ h. absurd (cc), λ (c, m, same, has, file, writable, plain). absurd (cc))
check_metadata_iff facts path canonical (ok m) there known = go m.is_file refl
  where
    r : SecurityCheckResult
    r = add_traversal (check_path_traversal path) (new_result path)

    go :
        (b : Bool)
        → m.is_file ≡ b
        → ((check_regular facts path canonical (ok m) r).passed ≡ true) ↔ IsSafeFile facts path
    go false h =
        (λ p. absurd (ground arith), λ (c, m', same, has, file, writable, plain). absurd (cc))
    go true h =
        let verdict = check_regular-passed facts path canonical m r h in
        let up = add_traversal-passed path in
        (
          λ p. (canonical, m, there, known, h, ground arith, ground arith),
          λ (c, m', same, has, file, writable, plain). ground arith,
        )

-- check_config_file_security passes exactly the safe files.
pub check_config_file_security_iff :
    (facts : FileFacts) (path : Text)
    → ((check_config_file_security facts path).passed ≡ true) ↔ IsSafeFile facts path
unfolding check_config_file_security
check_config_file_security_iff facts path = go (facts.canonicalize path) refl
  where
    go :
        (c : Result Text Text)
        → facts.canonicalize path ≡ c
        → ((check_resolved facts path c).passed ≡ true) ↔ IsSafeFile facts path
    go (err e) h =
        (λ p. absurd (cc), λ (canonical, m, same, has, file, writable, plain). absurd (cc))
    go (ok canonical) h = check_metadata_iff facts path canonical (facts.metadata canonical) h refl

-- A path that is not empty, has neither a null byte nor `..`, and that the system resolves to `resolved`
-- below the allowed directory.
abbrev pub IsAllowedPath : FileFacts → Text → Text → Text → Type 0
IsAllowedPath facts path root resolved =
    (allowed : Text) × (is_empty path ≡ false)
    × (contains_char 0 path ≡ false)
    × (has_parent_dir path ≡ false)
    × (facts.canonicalize (resolve_in root path) ≡ ok resolved)
    × (facts.canonicalize root ≡ ok allowed)
    × (is_prefix (components allowed) (components resolved) ≡ true)

-- sanitize_config_path gives a path exactly if it is what the system resolves an allowed path to.
pub sanitize_config_path_iff :
    (facts : FileFacts) (path root resolved : Text)
    → (sanitize_config_path facts path root ≡ ok resolved) ↔ IsAllowedPath facts path root resolved
unfolding sanitize_config_path check_path_traversal
sanitize_config_path_iff facts path root resolved = (
  λ h. from (facts.canonicalize root) refl h,
  λ (allowed, some_path, null, up, there, inside, below). ground arith,
)
  where
    from :
        (r : Result Text Text)
        → facts.canonicalize root ≡ r
        → sanitize_config_path facts path root ≡ ok resolved
        → IsAllowedPath facts path root resolved
    from (err e) known h = absurd (ground arith)
    from (ok allowed) known h =
        (allowed, ground arith, ground arith, ground arith, ground arith, known, ground arith)
