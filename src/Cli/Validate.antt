-- ===== src/Cli/Validate.antt =====
-- The command `validate` (crates/segwire-cli/src/commands/validate.rs), which checks files by itself. What
-- the file system and the crate `toml` answer is a parameter; directories are of finite depth.
pub mod Collect
pub mod Walk
pub mod Verdict
use Prim.Native.Nat.{bit_and}
use segwire.Base.{
  ℕ, zero, suc, ◌+◌, ◌*◌, Bool, true, false, not, ◌&&◌, ◌||◌, Option, none, some, List, [], ◌∷◌,
  ◌++◌, Result, ok, err, length, ltb, ◌==◌, ◌>>=◌, if◌then◌else◌,
}
use segwire.Text.{Text, lit}
use segwire.Text.Equality.{text_eq}
use segwire.Text.Numbers.{decimal}
use segwire.Sorting.{sort}
use segwire.Error.{SegwireError, error_message}
use segwire.Security.Files.{path_extension}
use segwire.Config.{NamespaceConfig}
use segwire.Config.Validate.{Base64, validate_namespace_config}
use segwire.Utils.Address.{UnicodeDigits}

pub record FileProperties : Type 0 where
  pub size : ℕ
  pub mode : ℕ

-- An error is the text that it prints.
pub record ToolFiles : Type 0 where
  pub read_to_string : Text → Result Text Text
  pub metadata : Text → Result Text FileProperties
  pub parse_toml : Text → Result Text (Unit {0})
  pub parse_namespace : Text → Result Text NamespaceConfig

pub record ValidationResult : Type 0 where
  pub file_path : Text
  pub has_errors : Bool
  pub has_warnings : Bool
  pub errors : List Text
  pub warnings : List Text

-- The flags that decide.
pub record ValidateArgs : Type 0 where
  pub recursive : Bool
  pub show_warnings : Bool
  pub continue_on_error : Bool

abbrev pub add_error : Text → ValidationResult → ValidationResult
add_error e r = record r { errors = r.errors ++ e ∷ []; has_errors = true }

abbrev pub add_warning : Text → ValidationResult → ValidationResult
add_warning w r = record r { warnings = r.warnings ++ w ∷ []; has_warnings = true }

abbrev pub warn_if : Bool → Text → ValidationResult → ValidationResult
warn_if true w r = add_warning w r
warn_if false w r = r

abbrev pub check_extension : Option Text → ValidationResult → ValidationResult
check_extension none r = add_warning (lit "File has no extension, expected .toml") r
check_extension (some ext) r =
    warn_if (not (text_eq ext (lit "toml"))) (lit "File does not have .toml extension") r

abbrev pub check_properties : Result Text FileProperties → ValidationResult → ValidationResult
check_properties (err e) r = add_warning (lit "Could not check file properties: " ++ e) r
check_properties (ok m) r =
    warn_if (not (bit_and m.mode 0o002 == 0))
      (lit "File is world-writable, this may be a security risk")
      (warn_if (ltb (1024 * 1024) m.size)
        (lit "File is unusually large ("
          ++ (decimal m.size ++ lit " bytes), consider splitting configuration"))
        r)

abbrev pub no_findings : Text → ValidationResult
no_findings path = record {
  file_path = path;
  has_errors = false;
  has_warnings = false;
  errors = [];
  warnings = [];
}

module _ ⦃u : UnicodeDigits⦄ ⦃b : Base64⦄ (fs : ToolFiles) where
  abbrev pub check_valid : Result SegwireError (Unit {0}) → ValidationResult → ValidationResult
  check_valid (ok valid) r = r
  check_valid (err e) r = add_error (lit "Semantic validation error: " ++ error_message e) r

  abbrev pub check_config : Result Text NamespaceConfig → ValidationResult → ValidationResult
  check_config (ok config) r = check_valid (validate_namespace_config config) r
  check_config (err e) r = add_error (lit "Cannot parse as NamespaceConfig: " ++ e) r

  abbrev pub properties_if : Bool → Text → ValidationResult → ValidationResult
  properties_if true path r = check_properties (fs.metadata path) r
  properties_if false path r = r

  abbrev pub finish_file : ValidateArgs → Text → ValidationResult → ValidationResult
  finish_file args path r = properties_if (args.show_warnings || r.has_errors) path r

  abbrev pub check_syntax :
      ValidateArgs → Text → Text → Result Text (Unit {0}) → ValidationResult → ValidationResult
  check_syntax args path content (err e) r = add_error (lit "TOML syntax error: " ++ e) r
  check_syntax args path content (ok parsed) r =
      finish_file args path (check_config (fs.parse_namespace content) r)

  abbrev pub check_content :
      ValidateArgs → Text → Result Text Text → ValidationResult → ValidationResult
  check_content args path (err e) r = add_error (lit "Cannot read file: " ++ e) r
  check_content args path (ok content) r = check_syntax args path content (fs.parse_toml content) r

  unfoldable pub validate_single_file : ValidateArgs → Text → ValidationResult
  unfolding lit text_eq decimal error_message
  validate_single_file args path =
      check_content args path (fs.read_to_string path)
        (check_extension (path_extension path) (no_findings path))

  -- The loop over the files, which stops behind the first with errors unless it is told to go on.
  unfoldable pub validate_files : ValidateArgs → List Text → List ValidationResult
  unfolding validate_single_file
  validate_files args [] = []
  validate_files args (file ∷ rest) =
      let result = validate_single_file args file in
      let later = validate_files args rest in
      result ∷ (if result.has_errors && not args.continue_on_error then [] else later)

-- The counter `error_count` of the loop, and then `warning_count`.
unfoldable pub count_errors : List ValidationResult → ℕ
count_errors [] = 0
count_errors (r ∷ rest) = let n = count_errors rest in if r.has_errors then suc n else n

unfoldable pub count_warnings : List ValidationResult → ℕ
count_warnings [] = 0
count_warnings (r ∷ rest) = let n = count_warnings rest in if r.has_warnings then suc n else n
