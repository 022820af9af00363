-- ===== src/Tests/Commands.antt =====
-- The commands of the tool, and the check of capabilities.
use segwire.Base.{
  ℕ, Bool, true, false, none, some, List, [], ◌∷◌, Result, ok, err, if◌then◌else◌, ◌≡◌, ◌↔◌, ◌≢◌,
  refl, length,
}
use segwire.Text.{Text, lit, byte_len}
use segwire.Text.Equality.{text_eq}
use segwire.Text.Split.{rsplit_once}
use segwire.ConfigManager.{extension}
use segwire.Regex.{is_match}
use segwire.NsEnter.{parse_args, validate_ns_path}
use segwire.Capabilities.{has_cap_sys_admin}
use segwire.Utils.Names.{validate_namespace_prefix}
use segwire.Cli.Exec.{Surroundings, becomes, execute_exec, find_helper_binary}
use segwire.Cli.Exec.Chain.{execute_exec-parse_args}
use segwire.Cli.Validate.{ToolFiles, ValidateArgs}
use segwire.Cli.Validate.Collect.{
  directory, entry, file, no_entries, selected_files, execute_validate, ValidateOutcome, Place,
}
use segwire.Cli.Validate.Walk.{EachFile}
use segwire.Cli.Validate.Verdict.{execute_validate-IsCorrect, IsCorrect}
use segwire.Tests.Data.{ascii_digits, no_base64, namespace_config}
use segwire.Tests.Entering.{granting}
use segwire.Tests.Serving.{host, backends, service, vpn_path, vpn-exec}

full_set : has_cap_sys_admin (lit "0000003fffffffff") ≡ true
unfolding has_cap_sys_admin lit
full_set = refl

empty_set : has_cap_sys_admin (lit "0000000000000000") ≡ false
unfolding has_cap_sys_admin lit
empty_set = refl

not_hex : has_cap_sys_admin (lit "not_hex") ≡ false
unfolding has_cap_sys_admin lit
not_hex = refl

abbrev around : Surroundings
around = record {
  exists = λ path. text_eq path (lit "/usr/libexec/segwire-ns-enter");
  override_path = some (lit "/tmp/segwire-ns-enter");
  sibling = none;
  which_output = none;
  is_service_available = true;
  exec_authorize = λ name. ok vpn_path;
}

helper_found : find_helper_binary around ≡ ok (lit "/usr/libexec/segwire-ns-enter")
unfolding find_helper_binary lit text_eq
helper_found = refl

abbrev helper : Text
helper = lit "/usr/libexec/segwire-ns-enter"

helper-other : helper ≢ lit "--"
unfolding lit
helper-other = λ h. absurd (cc)

execute_exec-parse_args_example :
    (argv : List Text) × (execute_exec around (lit "vpn") (lit "ip" ∷ lit "--" ∷ []) ≡ becomes argv)
    × (parse_args argv ≡ ok (vpn_path, lit "ip", lit "--" ∷ []))
    × (validate_ns_path granting vpn_path ≡ ok tt)
unfolding validate_namespace_prefix lit byte_len is_match
execute_exec-parse_args_example =
    execute_exec-parse_args backends host granting around (lit ":1.7") service (lit "vpn") vpn_path
      helper (lit "ip") (lit "--" ∷ []) refl refl refl refl vpn-exec refl refl refl helper_found
      helper-other

abbrev two_files : Place
two_files = directory (
    entry (lit "d/b.toml") file
      (entry (lit "d/notes") file (entry (lit "d/a.toml") file no_entries)))

two_found : selected_files false (lit "d") two_files ≡ ok (lit "d/a.toml" ∷ lit "d/b.toml" ∷ [])
unfolding selected_files lit text_eq extension rsplit_once
two_found = refl

-- The first file in order is no TOML, the second is valid.
abbrev tool_files : ToolFiles
tool_files = record {
  read_to_string = λ path. ok path;
  metadata = λ path. ok (record { size = 2000000; mode = 0o646 });
  parse_toml =
      λ content. if text_eq content (lit "d/a.toml") then err (lit "expected a key") else ok tt;
  parse_namespace = λ content. ok (namespace_config (lit "vpn"));
}

abbrev plain : ValidateArgs
plain = record { recursive = false; show_warnings = false; continue_on_error = false }

abbrev one_result : Result Text ValidateOutcome → ℕ × Bool
one_result (ok outcome) = (length outcome.validation_results, outcome.has_failed)
one_result (err e) = (0, true)

stops : one_result (execute_validate tool_files plain (lit "d") two_files) ≡ (1, true)
unfolding execute_validate lit text_eq extension rsplit_once
stops = refl

execute_validate-IsCorrect_example :
    (outcome : ValidateOutcome) × (execute_validate tool_files plain (lit "d") two_files
      ≡ ok outcome)
    × (outcome.total_files ≡ 2)
    × ((outcome.has_failed ≡ false) ↔ EachFile false (IsCorrect tool_files) (lit "d") two_files)
execute_validate-IsCorrect_example =
    execute_validate-IsCorrect tool_files plain (lit "d") two_files
      (lit "d/a.toml" ∷ lit "d/b.toml" ∷ []) two_found
