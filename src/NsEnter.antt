-- ===== src/NsEnter.antt =====
-- crates/segwire-ns-enter/src/main.rs: the setuid helper that enters a namespace and becomes a command
-- of the user. A run is the system calls that it makes, in order, and its end; what the calls answer
-- is a parameter, and every one of them is made at most once.
pub mod Arguments
pub mod Paths
pub mod Privileges
use segwire.Base.{
  ℕ, zero, suc, ◌+◌, Bool, true, false, not, ◌&&◌, ◌||◌, Option, none, some, List, [], ◌∷◌, ◌++◌,
  ◌==◌, ltb, length, any, if◌then◌else◌, Result, ok, err, ensure, ok_or, map_err, ◌>>=◌, ◌>>◌,
}
use segwire.Text.{Text, lit, is_empty, contains_char, contains_text, strip_prefix}
use segwire.Text.Equality.{text_eq}

-- What the kernel answers; an error is the text that it prints. `symlink_metadata` tells whether the
-- path is a symbolic link.
pub record System : Type 0 where
  pub symlink_metadata : Text → Result Text Bool
  pub open_file : Text → Result Text ℕ
  pub setns : ℕ → Result Text (Unit {0})
  pub getgid : ℕ
  pub getuid : ℕ
  pub setresgid : ℕ → ℕ → ℕ → Result Text (Unit {0})
  pub setresuid : ℕ → ℕ → ℕ → Result Text (Unit {0})
  pub no_new_privs : Result Text (Unit {0})
  pub execvp : Text → List Text → Result Text (Unit {0})

pub data SystemCall : Type 0 where
  opened : Text → SystemCall
  entered closed : ℕ → SystemCall
  group_set user_set : ℕ → ℕ → ℕ → SystemCall
  privileges_locked : SystemCall
  executed : Text → List Text → SystemCall

-- The process exits with a status, or has become the command.
pub data Outcome : Type 0 where
  exit : ℕ → Outcome
  replaced : Outcome

abbrev pub Run : Type 0
Run = List SystemCall × Outcome

abbrev pub allowed_ns_prefix : Text
allowed_ns_prefix = lit "/run/netns/"

abbrev next_index : Option ℕ → Option ℕ
next_index none = none
next_index (some i) = some (suc i)

-- Iterator::position
unfoldable pub position : Text → List Text → Option ℕ
position s [] = none
position s (t ∷ ts) = let later = position s ts in if text_eq t s then some 0 else next_index later

-- An index; out of bounds the source would panic, which the checks before rule out.
unfoldable pub argument : ℕ → List Text → Result Text Text
argument i [] = err (lit "index out of bounds")
argument zero (t ∷ ts) = ok t
argument (suc i) (t ∷ ts) = argument i ts

-- args[i..]
unfoldable pub from_index : ℕ → List Text → List Text
from_index zero ts = ts
from_index (suc i) [] = []
from_index (suc i) (t ∷ ts) = from_index i ts

unfoldable pub parse_args : List Text → Result Text (Text × Text × List Text)
unfolding position argument from_index
parse_args args = do
  ensure (not (ltb (length args) 4)) (lit "not enough arguments")
  ns_path ← argument 1 args
  separator_pos ←
      ok_or (position (lit "--") args)
        (lit "missing '--' separator between namespace path and command")
  ensure (separator_pos == 2) (lit "expected: <ns-path> -- <command> [args...]")
  ensure (ltb (separator_pos + 1) (length args)) (lit "no command specified after '--'")
  cmd ← argument (separator_pos + 1) args
  ok (ns_path, cmd, from_index (separator_pos + 2) args)

abbrev refuse_symlink : Text → Bool → Result Text (Unit {0})
refuse_symlink path true = err (lit "'" ++ (path ++ lit "' is a symlink, which is not allowed"))
refuse_symlink path false = ok tt

module _ (sys : System) where
  -- The part of the path behind the prefix.
  unfoldable pub check_ns_name : Text → Text → Result Text (Unit {0})
  check_ns_name path ns_name = do
    ensure (not (is_empty ns_name)) (lit "namespace name is empty")
    ensure (not (contains_char b'/' ns_name || contains_text (lit "..") ns_name))
        (lit "invalid namespace name: '" ++ (ns_name ++ lit "'"))
    ensure (not (contains_char 0 path)) (lit "path contains null byte")
    symlink ←
        map_err (λ e. lit "cannot stat '" ++ (path ++ (lit "': " ++ e))) (sys.symlink_metadata path)
    refuse_symlink path symlink

  unfoldable pub validate_ns_path : Text → Result Text (Unit {0})
  unfolding check_ns_name
  validate_ns_path path = elim (strip_prefix allowed_ns_prefix path) [
    | none ↦ err (
        lit "namespace path must start with '"
        ++ (allowed_ns_prefix ++ (lit "', got '" ++ (path ++ lit "'"))))
    | some ns_name ↦ check_ns_name path ns_name
  ]

-- A call, and what follows where it succeeds; a failure ends the process with status 1.
abbrev pub perform : {A : Type 0} → SystemCall → Result Text A → (A → Run) → Run
perform call (err e) next = (call ∷ [], exit 1)
perform call (ok a) next = let (calls, outcome) = next a in (call ∷ calls, outcome)

-- CString::new refuses a text with a null byte.
abbrev pub has_null : Text → Bool
has_null s = contains_char 0 s

abbrev pub exec_outcome : Result Text (Unit {0}) → Outcome
exec_outcome (ok done) = replaced
exec_outcome (err e) = exit 127

module _ (sys : System) where
  -- Become the command.
  unfoldable pub execute : Text → List Text → Run
  execute cmd cmd_args =
      if has_null cmd || any has_null cmd_args
      then ([], exit 1)
      else (executed cmd (cmd ∷ cmd_args) ∷ [], exec_outcome (sys.execvp cmd (cmd ∷ cmd_args)))

  -- Behind the entry: the descriptor is closed, the groups and then the user are dropped for good, and
  -- no privileges can be gained again.
  unfoldable pub drop_privileges : ℕ → Text → List Text → Run
  unfolding execute
  drop_privileges ns_fd cmd cmd_args = perform {A = Unit {0}} (closed ns_fd) (ok tt) (λ _.
      perform (group_set sys.getgid sys.getgid sys.getgid)
        (sys.setresgid sys.getgid sys.getgid sys.getgid)
        (λ _.
          perform (user_set sys.getuid sys.getuid sys.getuid)
            (sys.setresuid sys.getuid sys.getuid sys.getuid)
            (λ _. perform privileges_locked sys.no_new_privs (λ _. execute cmd cmd_args))))

  unfoldable pub enter : Text → Text → List Text → Run
  unfolding drop_privileges
  enter ns_path cmd cmd_args =
      perform (opened ns_path) (sys.open_file ns_path) (λ ns_fd.
        perform (entered ns_fd) (sys.setns ns_fd) (λ _. drop_privileges ns_fd cmd cmd_args))

  abbrev pub checked_enter : Result Text (Unit {0}) → Text → Text → List Text → Run
  checked_enter (err msg) ns_path cmd cmd_args = ([], exit 1)
  checked_enter (ok valid) ns_path cmd cmd_args = enter ns_path cmd cmd_args

  abbrev pub parsed_enter : Result Text (Text × Text × List Text) → Run
  parsed_enter (err msg) = ([], exit 1)
  parsed_enter (ok (ns_path, cmd, cmd_args)) =
      checked_enter (validate_ns_path sys ns_path) ns_path cmd cmd_args

  unfoldable pub main : List Text → Run
  unfolding parse_args validate_ns_path enter
  main args = parsed_enter (parse_args args)
