-- ===== src/Cli/Validate/Verdict.antt =====
-- What the verdict of `validate` says about the files.
use segwire.Base.{
  ok-injective, Bool, true, false, ◌||◌, Option, none, some, List, [], ◌∷◌, Result, ok, err, length,
  ◌≡◌, ◌↔◌, refl, Bool-cases, inl, inr, sym, ◌∙◌, All, arith,
}
use segwire.Text.{Text}
use segwire.Error.{SegwireError}
use segwire.Security.Files.{path_extension}
use segwire.Config.{NamespaceConfig}
use segwire.Config.Validate.{Base64, validate_namespace_config}
use segwire.Utils.Address.{UnicodeDigits}
use segwire.Cli.Validate.{
  ToolFiles, ValidateArgs, ValidationResult, FileProperties, validate_files, validate_single_file,
  count_errors, check_extension, check_properties, properties_if, check_config, check_valid,
  check_syntax, check_content, no_findings,
}
use segwire.Cli.Validate.Walk.{EachFile, selected_files-EachFile}
use segwire.Cli.Validate.Collect.{Place, ValidateOutcome, execute_validate, selected_files, counted}

check_extension-has_errors :
    (extension : Option Text) (r : ValidationResult)
    → (check_extension extension r).has_errors ≡ r.has_errors
check_extension-has_errors none r = refl
check_extension-has_errors (some ext) r = ground arith

check_properties-has_errors :
    (m : Result Text FileProperties) (r : ValidationResult)
    → (check_properties m r).has_errors ≡ r.has_errors
check_properties-has_errors (err e) r = refl
check_properties-has_errors (ok m) r = ground arith

module _ ⦃u : UnicodeDigits⦄ ⦃b : Base64⦄ (fs : ToolFiles) where
  -- A file that can be read, is TOML and is a namespace's configuration that is valid.
  abbrev pub IsCorrect : Text → Type 0
  IsCorrect path =
      (content : Text) × (config : NamespaceConfig) × (fs.read_to_string path ≡ ok content)
      × (fs.parse_toml content ≡ ok tt)
      × (fs.parse_namespace content ≡ ok config)
      × (validate_namespace_config config ≡ ok tt)

  properties_if-has_errors :
      (wanted : Bool) (path : Text) (r : ValidationResult)
      → (properties_if fs wanted path r).has_errors ≡ r.has_errors
  properties_if-has_errors true path r = check_properties-has_errors (fs.metadata path) r
  properties_if-has_errors false path r = refl

  check_valid_iff :
      (valid : Result SegwireError Unit) (r : ValidationResult)
      → r.has_errors ≡ false
      → ((check_valid fs valid r).has_errors ≡ false) ↔ (valid ≡ ok tt)
  check_valid_iff (ok valid) r none_yet = (λ h. refl, λ h. none_yet)
  check_valid_iff (err e) r none_yet = (λ h. absurd (ground arith), λ h. absurd (ground arith))

  check_config_iff :
      (parsed : Result Text NamespaceConfig) (r : ValidationResult)
      → r.has_errors ≡ false
      → ((check_config fs parsed r).has_errors ≡ false) ↔ (
          (config : NamespaceConfig) × (parsed ≡ ok config)
          × (validate_namespace_config config ≡ ok tt))
  check_config_iff (ok config) r none_yet =
      let same = check_valid_iff (validate_namespace_config config) r none_yet in
      (
        λ h. (config, refl, same.0 h),
        λ (other, there, valid). same.1 (rw (ok-injective there) valid),
      )
  check_config_iff (err e) r none_yet =
      (λ h. absurd (ground arith), λ (config, there, valid). absurd (ground arith))

  check_syntax_iff :
      (args : ValidateArgs) (path content : Text) (parsed : Result Text Unit) (r : ValidationResult)
      → r.has_errors ≡ false
      → ((check_syntax fs args path content parsed r).has_errors ≡ false) ↔ (
          (config : NamespaceConfig) × (parsed ≡ ok tt)
          × (fs.parse_namespace content ≡ ok config)
          × (validate_namespace_config config ≡ ok tt))
  check_syntax_iff args path content (ok parsed) r none_yet =
      let checked = check_config fs (fs.parse_namespace content) r in
      let kept = properties_if-has_errors (args.show_warnings || checked.has_errors) path checked in
      let same = check_config_iff (fs.parse_namespace content) r none_yet in
      (
        λ h. let (config, parses, valid) = same.0 (sym kept ∙ h) in (config, refl, parses, valid),
        λ (config, toml, parses, valid). kept ∙ same.1 (config, parses, valid),
      )
  check_syntax_iff args path content (err e) r none_yet =
      (λ h. absurd (ground arith), λ (config, there, parsed, valid). absurd (ground arith))

  check_content_iff :
      (args : ValidateArgs) (path : Text) (found : Result Text Text) (r : ValidationResult)
      → r.has_errors ≡ false
      → ((check_content fs args path found r).has_errors ≡ false) ↔ (
          (content : Text) × (config : NamespaceConfig) × (found ≡ ok content)
          × (fs.parse_toml content ≡ ok tt)
          × (fs.parse_namespace content ≡ ok config)
          × (validate_namespace_config config ≡ ok tt))
  check_content_iff args path (ok content) r none_yet =
      let same = check_syntax_iff args path content (fs.parse_toml content) r none_yet in
      (
        λ h.
            let (config, toml, parses, valid) = same.0 h in
            (content, config, refl, toml, parses, valid),
        λ (other, config, there, toml, parses, valid).
            same.1 (config, rw (ok-injective there) toml, rw (ok-injective there) parses, valid),
      )
  check_content_iff args path (err e) r none_yet = (
    λ h. absurd (ground arith),
    λ (content, config, there, toml, parses, valid). absurd (ground arith),
  )

  pub validate_single_file_iff :
      (args : ValidateArgs) (path : Text)
      → ((validate_single_file fs args path).has_errors ≡ false) ↔ IsCorrect path
  unfolding validate_single_file
  validate_single_file_iff args path =
      check_content_iff args path (fs.read_to_string path)
        (check_extension (path_extension path) (no_findings path))
        (check_extension-has_errors (path_extension path) (no_findings path))

  pub count-validate_files :
      (args : ValidateArgs) (files : List Text)
      → (count_errors (validate_files fs args files) ≡ 0) ↔ All IsCorrect files
  unfolding validate_files count_errors
  count-validate_files args [] = (λ h. tt, λ h. refl)
  count-validate_files args (path ∷ rest) =
      let (this_one, back_one) = validate_single_file_iff args path in
      let (those, back) = count-validate_files args rest in
      (
        λ h. elim (Bool-cases (validate_single_file fs args path).has_errors) [
          | inl failed ↦ absurd (ground arith)
          | inr fine ↦ (this_one fine, those (ground arith))
        ],
        λ (correct, all_correct).
            let fine = back_one correct in let none_later = back all_correct in ground arith,
      )

  -- Where the walk over a directory meets no error, the command succeeds exactly where each file to be
  -- validated can be read, is TOML and is a valid configuration, whether or not it goes on behind an error
  -- and whether or not it shows warnings. These are the file that is named, or the files with the extension
  -- toml in the directory, those of the directories below included if it is recursive.
  pub execute_validate-IsCorrect :
      (args : ValidateArgs) (path : Text) (place : Place) (files : List Text)
      → selected_files args.recursive path place ≡ ok files
      → (outcome : ValidateOutcome) × (execute_validate fs args path place ≡ ok outcome)
        × (outcome.total_files ≡ length files)
        × ((outcome.has_failed ≡ false) ↔ EachFile args.recursive IsCorrect path place)
  unfolding execute_validate
  execute_validate-IsCorrect args path place files found =
      let same = count-validate_files args files in
      let (there, back) = selected_files-EachFile args.recursive IsCorrect path place files found in
      (
        counted fs (length files) (validate_files fs args files),
        rw found refl,
        refl,
        (λ h. there (same.0 (ground arith)), λ h. let none_there = same.1 (back h) in ground arith),
      )
