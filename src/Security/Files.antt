-- ===== src/Security/Files.antt =====
-- The checks of files, directories and paths in crates/segwire-common/src/security.rs. What the operating
-- system answers is a parameter, and a check is a function on its answers.
use Prim.Native.Nat.{bit_and}
use segwire.Base.{
  ℕ, ◌+◌, ◌/◌, ◌%◌, Bool, true, false, not, ◌&&◌, ◌||◌, Option, none, some, List, [], ◌∷◌, ◌++◌,
  ◌==◌, filter, any, if◌then◌else◌, Result, ok, err, ensure, map_err, ◌>>=◌, ◌>>◌,
}
use segwire.Text.{Text, lit, is_empty, contains_char, starts_with_char}
use segwire.Text.Equality.{text_eq}
use segwire.Text.Split.{split}
use segwire.Text.Numbers.{decimal}
use segwire.Error.{SegwireResult, validation}
use segwire.ConfigManager.{extension}

pub record Metadata : Type 0 where
  pub is_file : Bool
  pub mode : ℕ
  pub uid : ℕ

pub record FileFacts : Type 0 where
  pub canonicalize : Text → Result Text Text
  pub metadata : Text → Result Text Metadata
  pub exists : Text → Bool
  pub is_dir : Text → Bool
  pub effective_uid : ℕ

pub record SecurityCheckResult : Type 0 where
  pub path : Text
  pub passed : Bool
  pub errors : List Text
  pub warnings : List Text

abbrev pub new_result : Text → SecurityCheckResult
new_result path = record { path = path; passed = true; errors = []; warnings = [] }

abbrev pub add_error : Text → SecurityCheckResult → SecurityCheckResult
add_error msg r = record r { passed = false; errors = r.errors ++ msg ∷ [] }

abbrev pub add_warning : Text → SecurityCheckResult → SecurityCheckResult
add_warning msg r = record r { warnings = r.warnings ++ msg ∷ [] }

-- `if test { … }`
abbrev pub when :
    Bool → (SecurityCheckResult → SecurityCheckResult) → SecurityCheckResult → SecurityCheckResult
when true f r = f r
when false f r = r

-- Path::components, but for the root: the pieces between slashes that are neither empty nor `.`
unfoldable pub components : Text → List Text
unfolding split lit text_eq filter
components path =
    filter (λ piece. not (is_empty piece) && not (text_eq piece (lit "."))) (split b'/' path)

unfoldable pub has_parent_dir : Text → Bool
unfolding components lit text_eq
has_parent_dir path = any (λ piece. text_eq piece (lit "..")) (components path)

unfoldable pub traversal_message : Text → Text
unfolding lit
traversal_message path = lit "Path contains '..' component which is not allowed: " ++ path

unfoldable pub check_path_traversal : Text → Result Text (Unit {0})
unfolding has_parent_dir traversal_message
check_path_traversal path = if has_parent_dir path then err (traversal_message path) else ok tt

abbrev octal_digit : ℕ → ℕ
octal_digit n = b'0' + n % 8

-- `{:04o}` of mode & 0o7777
unfoldable pub octal : ℕ → Text
octal mode =
    let bits = bit_and mode 0o7777 in
    octal_digit (bits / 512)
    ∷ octal_digit (bits / 64)
    ∷ octal_digit (bits / 8)
    ∷ octal_digit bits
    ∷ []

abbrev pub is_world_writable : ℕ → Bool
is_world_writable mode = not (bit_and mode 0o002 == 0)

abbrev is_group_writable : ℕ → Bool
is_group_writable mode = not (bit_and mode 0o020 == 0)

abbrev is_recommended : ℕ → Bool
is_recommended perms = perms == 0o644 || perms == 0o640 || perms == 0o600

unfoldable pub check_unix_permissions :
    FileFacts → Metadata → Text → SecurityCheckResult → SecurityCheckResult
unfolding lit octal decimal
check_unix_permissions facts m path r =
    when (not (is_recommended (bit_and m.mode 0o7777)))
      (add_warning (
        lit "File permissions "
        ++ (octal m.mode ++ lit " are non-standard; recommended: 0644 or 0640")))
      (when (not (m.uid == 0) && not (m.uid == facts.effective_uid))
        (add_warning (
          lit "File '"
          ++ (path
              ++ (lit "' is owned by UID "
                  ++ (decimal m.uid
                      ++ (lit " (not root, not current user UID "
                          ++ (decimal facts.effective_uid ++ lit ")")))))))
        (when (is_world_writable m.mode)
          (add_error (
            lit "File is world-writable (mode "
            ++ (octal m.mode ++ lit "); configuration files must not be writable by all users")))
          r))

-- Path::extension, of the last component
abbrev last_piece : List Text → Text
last_piece [] = []
last_piece (piece ∷ []) = piece
last_piece (piece ∷ later ∷ pieces) = last_piece (later ∷ pieces)

-- The pieces `..` have no extension.
abbrev pub path_extension : Text → Option Text
path_extension path =
    let file_name = last_piece (components path) in
    if text_eq file_name (lit "..") then none else extension file_name

abbrev pub extension_warning : Option Text → SecurityCheckResult → SecurityCheckResult
extension_warning none r = add_warning (lit "File has no extension; expected .toml") r
extension_warning (some ext) r =
    when (not (text_eq ext (lit "toml")))
      (add_warning (lit "Expected .toml extension, got ." ++ ext)) r

abbrev pub add_traversal : Result Text (Unit {0}) → SecurityCheckResult → SecurityCheckResult
add_traversal (ok _) r = r
add_traversal (err msg) r = add_error msg r

abbrev unwrap_or_default : Result Text Text → Text
unwrap_or_default (ok path) = path
unwrap_or_default (err e) = []

abbrev pub check_regular :
    FileFacts → Text → Text → Result Text Metadata → SecurityCheckResult → SecurityCheckResult
check_regular facts path canonical (err e) r = add_error (lit "Cannot stat file: " ++ e) r
check_regular facts path canonical (ok m) r =
    if m.is_file
    then extension_warning (path_extension path) (
        check_unix_permissions facts m path (
          when (not (text_eq canonical (unwrap_or_default (facts.canonicalize path))))
            (add_warning (lit "Path involves symlinks; resolved path may differ")) r))
    else add_error (lit "Path is not a regular file") r

abbrev pub check_resolved : FileFacts → Text → Result Text Text → SecurityCheckResult
check_resolved facts path (err e) = add_error (lit "Cannot resolve path: " ++ e) (new_result path)
check_resolved facts path (ok canonical) =
    check_regular facts path canonical (facts.metadata canonical)
      (add_traversal (check_path_traversal path) (new_result path))

-- check_config_file_security, which never fails
unfoldable pub check_config_file_security : FileFacts → Text → SecurityCheckResult
unfolding lit check_path_traversal check_unix_permissions extension components text_eq
check_config_file_security facts path = check_resolved facts path (facts.canonicalize path)

abbrev check_directory_mode : Result Text Metadata → SecurityCheckResult → SecurityCheckResult
check_directory_mode (err e) r = r
check_directory_mode (ok m) r =
    when (is_group_writable m.mode)
      (add_warning (
        lit "Directory is group-writable (mode "
        ++ (octal m.mode ++ lit "); consider restricting to 755")))
      (when (not (m.uid == 0))
        (add_warning (
          lit "Directory owned by UID "
          ++ (decimal m.uid ++ lit " rather than root (UID 0); consider chown root:root")))
        (when (is_world_writable m.mode)
          (add_error (
            lit "Directory is world-writable (mode "
            ++ (octal m.mode ++ lit "); this allows anyone to inject configuration files")))
          r))

-- check_config_directory_security, which never fails
unfoldable pub check_config_directory_security : FileFacts → Text → SecurityCheckResult
unfolding lit octal decimal
check_config_directory_security facts dir =
    if facts.exists dir
    then (if facts.is_dir dir
        then check_directory_mode (facts.metadata dir) (new_result dir)
        else add_error (lit "Path is not a directory") (new_result dir))
    else add_error (lit "Directory does not exist") (new_result dir)

-- Whether Path::join puts a slash behind the directory.
abbrev needs_slash : Text → Bool
needs_slash [] = false
needs_slash (c ∷ []) = not (c == b'/')
needs_slash (c ∷ d ∷ s) = needs_slash (d ∷ s)

-- Path::join, where the argument may be absolute
abbrev pub resolve_in : Text → Text → Text
resolve_in root path =
    if starts_with_char b'/' path
    then path
    else root ++ (if needs_slash root then b'/' ∷ path else path)

-- Path::starts_with, of absolute paths: whole components
unfoldable pub is_prefix : List Text → List Text → Bool
unfolding text_eq
is_prefix [] pieces = true
is_prefix (p ∷ ps) [] = false
is_prefix (p ∷ ps) (q ∷ qs) = text_eq p q && is_prefix ps qs

unfoldable pub outside_message : Text → Text → Text → Text
unfolding lit
outside_message path canonical root =
    lit "Path '"
    ++ (path
        ++ (lit "' resolves to '"
            ++ (canonical ++ (lit "' which is outside allowed directory '" ++ (root ++ lit "'")))))

unfoldable pub sanitize_config_path : FileFacts → Text → Text → SegwireResult Text
unfolding lit contains_char check_path_traversal components is_prefix outside_message
sanitize_config_path facts path allowed_root = do
  ensure (not (is_empty path)) (validation (lit "Configuration path cannot be empty"))
  ensure (not (contains_char 0 path)) (validation (lit "Configuration path contains null byte"))
  map_err validation (check_path_traversal path)
  canonical ←
      map_err (λ e. validation (lit "Cannot resolve path: " ++ e))
        (facts.canonicalize (resolve_in allowed_root path))
  root ←
      map_err (λ e. validation (lit "Cannot resolve allowed root: " ++ e))
        (facts.canonicalize allowed_root)
  ensure (is_prefix (components root) (components canonical))
      (validation (outside_message path canonical root))
  ok canonical
