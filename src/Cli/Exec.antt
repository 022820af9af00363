-- ===== src/Cli/Exec.antt =====
-- The command `exec` (crates/segwire-cli/src/commands/exec.rs): the path of the namespace from the daemon,
-- the helper, and the arguments with which it is run.
pub mod Chain
use segwire.Base.{
  Bool, true, false, Option, none, some, List, [], ◌∷◌, ◌++◌, Result, ok, err, any, ◌>>=◌,
  if◌then◌else◌,
}
use segwire.Text.{Text, lit, is_empty}
use segwire.Text.Split.{trim}

-- What the tool finds around itself; an error is the text that it prints.
pub record Surroundings : Type 0 where
  pub exists : Text → Bool
  -- the variable SEGWIRE_NS_ENTER_PATH, and the helper beside the tool where that place is known
  pub override_path : Option Text
  pub sibling : Option Text
  -- what `which segwire-ns-enter` prints, where it runs and succeeds
  pub which_output : Option Text
  pub is_service_available : Bool
  pub exec_authorize : Text → Result Text Text

-- The process becomes a program with its arguments, the program in front; it exits; or it reports an error.
pub data ExecOutcome : Type 0 where
  becomes : List Text → ExecOutcome
  exits : ExecOutcome
  fails : Text → ExecOutcome

abbrev helper_search_paths : List Text
helper_search_paths =
    lit "/usr/libexec/segwire-ns-enter"
    ∷ lit "/usr/lib/segwire/segwire-ns-enter"
    ∷ lit "/usr/local/libexec/segwire-ns-enter"
    ∷ []

abbrev where_there : (Text → Bool) → Option Text → Option Text
where_there exists none = none
where_there exists (some path) = if exists path then some path else none

abbrev first_there : (Text → Bool) → List Text → Option Text
first_there exists [] = none
first_there exists (path ∷ rest) = if exists path then some path else first_there exists rest

abbrev on_path : Option Text → Option Text
on_path none = none
on_path (some output) = if is_empty (trim output) then none else some (trim output)

abbrev or_later : Option Text → Option Text → Option Text
or_later (some path) later = some path
or_later none later = later

abbrev found_helper : Option Text → Result Text Text
found_helper (some path) = ok path
found_helper none = err (lit "segwire-ns-enter helper not found.")

-- Of the text of the error, its first line.
unfoldable pub find_helper_binary : Surroundings → Result Text Text
unfolding lit trim
find_helper_binary s = found_helper (
    or_later (where_there s.exists s.override_path) (
      or_later (where_there s.exists s.sibling)
        (or_later (first_there s.exists helper_search_paths) (on_path s.which_output))))

-- The arguments of the helper.
abbrev pub helper_args : Text → List Text → List Text
helper_args ns_path command = ns_path ∷ lit "--" ∷ command

abbrev run_helper : Text → List Text → Result Text Text → ExecOutcome
run_helper ns_path command (err e) = fails e
run_helper ns_path command (ok helper_path) = becomes (helper_path ∷ helper_args ns_path command)

abbrev authorized_exec : Surroundings → List Text → Result Text Text → ExecOutcome
authorized_exec s command (err e) = fails e
authorized_exec s command (ok ns_path) = run_helper ns_path command (find_helper_binary s)

-- execute, where the last call succeeds
unfoldable pub execute_exec : Surroundings → Text → List Text → ExecOutcome
unfolding lit find_helper_binary
execute_exec s namespace [] = fails (lit "No command specified")
execute_exec s namespace (cmd ∷ cmd_args) =
    if s.is_service_available
    then authorized_exec s (cmd ∷ cmd_args) (s.exec_authorize namespace)
    else exits
