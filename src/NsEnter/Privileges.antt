-- ===== src/NsEnter/Privileges.antt =====
-- In which order the helper gives up its privileges.
use segwire.Base.{
  ◌⊎◌, ℕ, Bool, true, false, List, [], ◌∷◌, Result, ok, err, any, ◌≡◌, refl, arith, inl, inr,
}
use segwire.Text.{Text}
use segwire.NsEnter.{
  System, SystemCall, opened, entered, closed, group_set, user_set, privileges_locked, executed,
  main, enter, drop_privileges, execute, parse_args, validate_ns_path,
}

abbrev pub is_exec : SystemCall → Bool
is_exec (executed cmd args) = true
is_exec call = false

-- The calls of a run that becomes a command: the file is opened and entered, every privilege is
-- dropped, the groups before the user, and locked, and the command is the last of them.
abbrev pub full_run : System → Text → ℕ → Text → List Text → List SystemCall
full_run sys ns_path ns_fd cmd cmd_args =
    opened ns_path
    ∷ entered ns_fd
    ∷ closed ns_fd
    ∷ group_set sys.getgid sys.getgid sys.getgid
    ∷ user_set sys.getuid sys.getuid sys.getuid
    ∷ privileges_locked
    ∷ executed cmd (cmd ∷ cmd_args)
    ∷ []

-- That every call before the command succeeded.
abbrev pub AllGranted : System → Text → ℕ → Type 0
AllGranted sys ns_path ns_fd =
    (sys.open_file ns_path ≡ ok ns_fd)
    × (sys.setns ns_fd ≡ ok tt)
    × (sys.setresgid sys.getgid sys.getgid sys.getgid ≡ ok tt)
    × (sys.setresuid sys.getuid sys.getuid sys.getuid ≡ ok tt)
    × (sys.no_new_privs ≡ ok tt)

Result-cases :
    {A : Type 0} (r : Result Text A) → ((e : Text) × (r ≡ err e)) ⊎ ((a : A) × (r ≡ ok a))
Result-cases (ok a) = inr (a, refl)
Result-cases (err e) = inl (e, refl)

execute-exec :
    (sys : System) (cmd : Text) (cmd_args : List Text)
    → any is_exec (execute sys cmd cmd_args).0 ≡ true
    → (execute sys cmd cmd_args).0 ≡ executed cmd (cmd ∷ cmd_args) ∷ []
unfolding execute
execute-exec sys cmd cmd_args h = ground arith

module _ (sys : System) (ns_path cmd : Text) (cmd_args : List Text) where
  enter-exec :
      any is_exec (enter sys ns_path cmd cmd_args).0 ≡ true
      → (ns_fd : ℕ) × (AllGranted sys ns_path ns_fd
          × ((enter sys ns_path cmd cmd_args).0 ≡ full_run sys ns_path ns_fd cmd cmd_args))
  unfolding enter drop_privileges
  enter-exec h = elim (Result-cases (sys.open_file ns_path)) [
    | inl (e, fails) ↦ absurd (ground arith)
    | inr (ns_fd, opens) ↦ (ns_fd, ground (arith, execute-exec sys cmd cmd_args))
  ]

-- A run in which a command is executed makes exactly the calls of a full run, and each of them was
-- granted: no command runs before the namespace is entered and every privilege is dropped, and the
-- path, the command and its arguments are those of the command line.
pub main-exec :
    (sys : System) (args : List Text)
    → any is_exec (main sys args).0 ≡ true
    → (ns_path : Text) × (cmd : Text) × (cmd_args : List Text) × (ns_fd : ℕ) × (parse_args args
        ≡ ok (ns_path, cmd, cmd_args))
      × (validate_ns_path sys ns_path ≡ ok tt)
      × AllGranted sys ns_path ns_fd
      × ((main sys args).0 ≡ full_run sys ns_path ns_fd cmd cmd_args)
unfolding main
main-exec sys args h = elim (Result-cases (parse_args args)) [
  | inl (e, fails) ↦ absurd (ground arith)
  | inr ((ns_path, cmd, cmd_args), parses) ↦ elim (Result-cases (validate_ns_path sys ns_path)) [
    | inl (e, fails) ↦ absurd (ground arith)
    | inr (done, valid) ↦
        let (ns_fd, (granted, run)) = enter-exec sys ns_path cmd cmd_args (ground arith) in
        (ns_path, cmd, cmd_args, ns_fd, parses, valid, granted, ground arith)
  ]
]
