-- ===== src/Cli/Exec/Chain.antt =====
-- The way of a command: from the tool by the daemon to the helper.
use segwire.Base.{true, false, List, ◌∷◌, ok, ◌≡◌, ◌≢◌, refl}
use segwire.Text.{Text, lit}
use segwire.ConfigManager.{namespace_prefix}
use segwire.Utils.Names.{validate_namespace_prefix}
use segwire.Utils.Address.{UnicodeDigits}
use segwire.Config.Validate.{Base64}
use segwire.NsEnter.{System, parse_args, validate_ns_path}
use segwire.NsEnter.Arguments.{parse_args_iff}
use segwire.NsEnter.Paths.{validate_ns_path_iff}
use segwire.Service.{Host, ServiceState, Backends}
use segwire.Service.Handlers.{exec_authorize, ns_path}
use segwire.Service.Dispatch.{handle}
use segwire.Service.Execution.{exec_authorize-validate_ns_path}
use segwire.Cli.Exec.{Surroundings, becomes, helper_args, find_helper_binary, execute_exec}

separator-ne-path :
    (sys : System) (path : Text) → validate_ns_path sys path ≡ ok tt → path ≢ lit "--"
unfolding lit
separator-ne-path sys path h same =
    let found = (validate_ns_path_iff sys path).0 h in let whole = found.1.0 in absurd (cc)

module _ {K R : Type 0} ⦃u : UnicodeDigits⦄ ⦃b : Base64⦄ (on : Backends K R) (host : Host) where
  -- Where the daemon answers ExecAuthorize with a path, and the helper is found and is not called `--`, the
  -- tool becomes the helper with arguments that the helper reads as that path and the command that was
  -- given, whatever the command's own arguments are, and the helper accepts the path. The prefix is one that
  -- the daemon accepts, a slash, a dot and the null character are not alphanumeric, and the file is no
  -- symbolic link.
  pub execute_exec-parse_args :
      (sys : System) (s : Surroundings) (sender : Text) (svc : ServiceState K R)
      → (name path helper cmd : Text) (cmd_args : List Text)
      → validate_namespace_prefix (namespace_prefix svc.config_manager) ≡ ok tt
      → host.char_is_alphanumeric b'/' ≡ false
      → host.char_is_alphanumeric b'.' ≡ false
      → host.char_is_alphanumeric 0 ≡ false
      → (handle on host sender (exec_authorize name) svc).0 ≡ ok (ns_path path)
      → sys.symlink_metadata path ≡ ok false
      → s.is_service_available ≡ true
      → s.exec_authorize name ≡ ok path
      → find_helper_binary s ≡ ok helper
      → helper ≢ lit "--"
      → (argv : List Text) × (execute_exec s name (cmd ∷ cmd_args) ≡ becomes argv)
        × (parse_args argv ≡ ok (path, cmd, cmd_args))
        × (validate_ns_path sys path ≡ ok tt)
  unfolding execute_exec
  execute_exec-parse_args sys s sender svc name path helper cmd cmd_args valid slash dot null reply
        there up granted found other =
      let accepted =
        exec_authorize-validate_ns_path on host sys sender svc name path valid slash dot null reply
          there in
      let argv = helper ∷ helper_args path (cmd ∷ cmd_args) in
      (
        argv,
        rw (up, granted, found) refl,
        (parse_args_iff argv path cmd cmd_args).1
            (helper, refl, other, separator-ne-path sys path accepted),
        accepted,
      )
