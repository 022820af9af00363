-- ===== src/Cli/Validate/Collect.antt =====
-- validate.rs: the files under a directory, and the command as a whole.
use segwire.Base.{
  ℕ, Bool, true, false, Option, none, some, List, [], ◌∷◌, ◌++◌, Result, ok, err, length, ltb,
  if◌then◌else◌,
}
use segwire.Text.{Text, lit}
use segwire.Text.Equality.{text_eq}
use segwire.Security.Files.{components, path_extension}
use segwire.Sorting.{text_leb}
use segwire.Config.Validate.{Base64}
use segwire.Utils.Address.{UnicodeDigits}
use segwire.Cli.Validate.{
  ToolFiles, ValidateArgs, ValidationResult, validate_files, count_errors, count_warnings,
}

-- What is at a path: a file, a directory that can be read or not, or neither. An entry comes with its path,
-- and one that fails ends the walk.
mutual
  pub data Place : Type 0 where
    file : Place
    directory : Entries → Place
    unreadable : Text → Place
    neither : Place

  pub data Entries : Type 0 where
    no_entries : Entries
    entry : Text → Place → Entries → Entries
    broken : Text → Entries

-- The order of `Path`: by components.
unfoldable pub components_leb : List Text → List Text → Bool
unfolding text_leb text_eq
components_leb [] t = true
components_leb (x ∷ s) [] = false
components_leb (x ∷ s) (y ∷ t) =
    let rest = components_leb s t in if text_eq x y then rest else text_leb x y

unfoldable pub insert_path : Text → List Text → List Text
unfolding components_leb components
insert_path p [] = p ∷ []
insert_path p (q ∷ qs) =
    let rest = insert_path p qs in
    if components_leb (components p) (components q) then p ∷ q ∷ qs else q ∷ rest

unfoldable pub sort_paths : List Text → List Text
unfolding insert_path
sort_paths [] = []
sort_paths (p ∷ ps) = insert_path p (sort_paths ps)

abbrev pub is_toml : Option Text → Bool
is_toml none = false
is_toml (some extension) = text_eq extension (lit "toml")

abbrev pub sorted_files : Result Text (List Text) → Result Text (List Text)
sorted_files (ok files) = ok (sort_paths files)
sorted_files (err e) = err e

abbrev pub followed_by : Result Text (List Text) → Result Text (List Text) → Result Text (List Text)
followed_by (err e) later = err e
followed_by (ok files) (err e) = err e
followed_by (ok files) (ok later) = ok (files ++ later)

unfoldable mutual
  unfolding text_eq lit sort_paths

  -- What an entry adds to the files.
  pub place_files : Bool → Text → Place → Result Text (List Text)
  place_files recursive path file = ok (if is_toml (path_extension path) then path ∷ [] else [])
  place_files recursive path (directory entries) =
      if recursive then sorted_files (entry_files recursive entries) else ok []
  place_files recursive path (unreadable e) = if recursive then err e else ok []
  place_files recursive path neither = ok []

  -- The loop over the entries, before the files are sorted.
  pub entry_files : Bool → Entries → Result Text (List Text)
  entry_files recursive no_entries = ok []
  entry_files recursive (entry path place rest) =
      followed_by (place_files recursive path place) (entry_files recursive rest)
  entry_files recursive (broken e) = err e

unfoldable pub collect_config_files : Bool → Entries → Result Text (List Text)
unfolding place_files entry_files
collect_config_files recursive entries = sorted_files (entry_files recursive entries)

-- The files that are validated: the one that is named, or those of the directory.
unfoldable pub selected_files : Bool → Text → Place → Result Text (List Text)
unfolding collect_config_files lit
selected_files recursive path file = ok (path ∷ [])
selected_files recursive path (directory entries) = collect_config_files recursive entries
selected_files recursive path (unreadable e) = err e
selected_files recursive path neither =
    err (lit "Path does not exist or is not a file/directory: " ++ path)

abbrev home_or_tmp : Option Text → Text
home_or_tmp none = lit "/tmp"
home_or_tmp (some home) = home

-- The path, with the test whether a file exists and the variable HOME.
unfoldable pub path_to_validate : (Text → Bool) → Option Text → Option Text → Text
unfolding lit
path_to_validate exists home (some path) = path
path_to_validate exists home none =
    if exists (lit "/etc/segwire/namespaces")
    then lit "/etc/segwire/namespaces"
    else home_or_tmp home ++ lit "/.config/segwire/namespaces"

-- What is printed, and whether the tool exits with status 1.
pub record ValidateOutcome : Type 0 where
  pub validation_results : List ValidationResult
  pub total_files : ℕ
  pub error_count : ℕ
  pub warning_count : ℕ
  pub has_failed : Bool

module _ ⦃u : UnicodeDigits⦄ ⦃b : Base64⦄ (fs : ToolFiles) where
  abbrev pub counted : ℕ → List ValidationResult → ValidateOutcome
  counted total results = record {
    validation_results = results;
    total_files = total;
    error_count = count_errors results;
    warning_count = count_warnings results;
    has_failed = ltb 0 (count_errors results);
  }

  abbrev pub validate_selected :
      ValidateArgs → Result Text (List Text) → Result Text ValidateOutcome
  validate_selected args (err e) = err e
  validate_selected args (ok files) = ok (counted (length files) (validate_files fs args files))

  -- execute, on the path and on what is there
  unfoldable pub execute_validate : ValidateArgs → Text → Place → Result Text ValidateOutcome
  unfolding validate_files count_errors count_warnings selected_files
  execute_validate args path place =
      validate_selected args (selected_files args.recursive path place)
