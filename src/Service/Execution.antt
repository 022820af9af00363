-- ===== src/Service/Execution.antt =====
-- The path that ExecAuthorize gives, under the checks of the helper that enters it.
use segwire.Base.{
  ℕ, Bool, true, false, ◌||◌, ◌==◌, Option, none, some, [], ◌∷◌, ◌++◌, ok, all, all-append, ◌≡◌,
  refl, arith, Bool-cases, inl, inr, map_err-eq-ok,
}
use segwire.Text.{Text, lit, is_empty, contains_char, contains_text, starts_with}
use segwire.Utils.Names.{
  is_name_char, is_interface_char, validate_namespace_prefix, generate_full_namespace_name,
}
use segwire.Utils.Names.Validity.{validate_namespace_prefix_iff, char_absent}
use segwire.ConfigManager.{namespace_prefix}
use segwire.ConfigManager.Prefix.{full_namespace_name, matches_prefix}
use segwire.NsEnter.{System, validate_ns_path}
use segwire.NsEnter.Paths.{validate_ns_path_iff}
use segwire.NamespaceState.{NamespaceState, is_active}
use segwire.Config.Validate.{Base64}
use segwire.Utils.Address.{UnicodeDigits}
use segwire.Service.{Host, ServiceState, Backends, validate_method_name}
use segwire.Service.Operations.{full_name_of}
use segwire.Service.Authorization.{IsAuthorized, handle-answered}
use segwire.Service.Handlers.{
  exec_authorize, ns_path, check_argument, netns_path, find_state, exec_reply, authorize_exec,
}
use segwire.Service.Dispatch.{perform_request, handle}

all_mono :
    (p q : ℕ → Bool) (s : Text)
    → ((c : ℕ) → p c ≡ true → q c ≡ true)
    → all p s ≡ true
    → all q s ≡ true
all_mono p q [] h a = refl
all_mono p q (c ∷ s) h a = ground (arith, h c, all_mono p q s h)

-- Two dots in a row are dots.
contains_text-dots : (s : Text) → contains_char b'.' s ≡ false → contains_text (lit "..") s ≡ false
unfolding contains_char contains_text lit starts_with
contains_text-dots [] h = refl
contains_text-dots (c ∷ s) h = ground (arith, contains_text-dots s)

-- The characters of a full name: those of the prefix, a hyphen, and those of the argument.
abbrev name_char : Host → ℕ → Bool
name_char host c = host.char_is_alphanumeric c || is_interface_char c

validate_method_name-chars :
    (host : Host) (name : Text)
    → validate_method_name host name ≡ ok tt
    → (is_empty name ≡ false) × (all (name_char host) name ≡ true)
unfolding validate_method_name
validate_method_name-chars host name h =
    let p : ℕ → Bool = λ c. host.char_is_alphanumeric c || c == b'-' || c == b'_' in
    ground (arith, all_mono p (name_char host) name (λ c e. ground arith))

all-full_namespace_name :
    (q : ℕ → Bool) (prefix name : Text)
    → q b'-' ≡ true
    → all q prefix ≡ true
    → all q name ≡ true
    → all q (full_namespace_name prefix name) ≡ true
unfolding full_namespace_name generate_full_namespace_name
all-full_namespace_name q prefix name h p n = elim (Bool-cases (matches_prefix prefix name)) [
  | inl own ↦ rw own n
  | inr other ↦ rw other (ground (arith, all-append q prefix (b'-' ∷ name)))
]

is_empty-separated : (prefix name : Text) → is_empty (prefix ++ (b'-' ∷ name)) ≡ false
is_empty-separated [] name = refl
is_empty-separated (c ∷ prefix) name = refl

full_namespace_name-nonempty :
    (prefix name : Text)
    → is_empty name ≡ false
    → is_empty (full_namespace_name prefix name) ≡ false
unfolding full_namespace_name generate_full_namespace_name
full_namespace_name-nonempty prefix name h = elim (Bool-cases (matches_prefix prefix name)) [
  | inl own ↦ rw own h
  | inr other ↦ rw other (is_empty-separated prefix name)
]

prefix-chars :
    (host : Host) (prefix : Text)
    → validate_namespace_prefix prefix ≡ ok tt
    → all (name_char host) prefix ≡ true
prefix-chars host [] h = refl
prefix-chars host (c ∷ s) h =
    let (letter, chars, _) = (validate_namespace_prefix_iff (c ∷ s)).0 h in
    ground (arith, all_mono is_name_char (name_char host) s (λ d e. ground arith))

exec_reply-path :
    (host : Host) (full_name name path : Text) (o : Option NamespaceState)
    → exec_reply host full_name name o ≡ ok (ns_path path)
    → (path ≡ netns_path full_name)
      × ((s : NamespaceState) × (o ≡ some s) × (is_active s ≡ true))
      × (host.files.exists path ≡ true)
unfolding exec_reply
exec_reply-path host full_name name path none h = absurd (cc)
exec_reply-path host full_name name path (some s) h = elim (Bool-cases (is_active s)) [
  | inl running ↦ elim (Bool-cases (host.files.exists (netns_path full_name))) [
    | inl there ↦
        let same : path ≡ netns_path full_name = ground arith in
        (same, (s, refl, running), rw same there)
    | inr gone ↦ absurd (ground arith)
  ]
  | inr stopped ↦ absurd (ground arith)
]

module _ {K R : Type 0} ⦃u : UnicodeDigits⦄ ⦃b : Base64⦄ (on : Backends K R) (host : Host) where
  -- What the method says of a path that it gives.
  abbrev pub IsExecutable : ServiceState K R → Text → Text → Type 0
  IsExecutable svc name path =
      (path ≡ netns_path (full_name_of svc name))
      × ((s : NamespaceState) × (find_state svc name ≡ some s) × (is_active s ≡ true))
      × (host.files.exists path ≡ true)

  -- ExecAuthorize gives the path of the full name of an active namespace alone, whose file exists,
  -- and to a sender that is authorized.
  pub exec_authorize-IsExecutable :
      (sender : Text) (svc : ServiceState K R) (name path : Text)
      → (handle on host sender (exec_authorize name) svc).0 ≡ ok (ns_path path)
      → IsAuthorized on host sender (exec_authorize name) svc × IsExecutable svc name path
  unfolding perform_request authorize_exec
  exec_authorize-IsExecutable sender svc name path h =
      let (granted, performed) =
        handle-answered on host sender (exec_authorize name) svc (ns_path path) h in
      (
        granted,
        exec_reply-path host (full_name_of svc name) name path (find_state svc name) performed,
      )

  -- The helper accepts such a path, if the file is no symbolic link.
  pub exec_authorize-validate_ns_path :
      (sys : System) (sender : Text) (svc : ServiceState K R) (name path : Text)
      → validate_namespace_prefix (namespace_prefix svc.config_manager) ≡ ok tt
      → host.char_is_alphanumeric b'/' ≡ false
      → host.char_is_alphanumeric b'.' ≡ false
      → host.char_is_alphanumeric 0 ≡ false
      → (handle on host sender (exec_authorize name) svc).0 ≡ ok (ns_path path)
      → sys.symlink_metadata path ≡ ok false
      → validate_ns_path sys path ≡ ok tt
  unfolding check_argument contains_char lit
  exec_authorize-validate_ns_path sys sender svc name path valid slash dot null h there =
      let ((checked, _), (same, _, _)) = exec_authorize-IsExecutable sender svc name path h in
      let (some_name, chars) =
        validate_method_name-chars host name
          (map_err-eq-ok _ (validate_method_name host name) checked) in
      let prefix = namespace_prefix svc.config_manager in
      let full_name = full_namespace_name prefix name in
      let all_chars =
        all-full_namespace_name (name_char host) prefix name (ground arith)
          (prefix-chars host prefix valid) chars in
      let single = char_absent (name_char host) b'/' full_name (ground arith) all_chars in
      let no_dots =
        contains_text-dots full_name
          (char_absent (name_char host) b'.' full_name (ground arith) all_chars) in
      let no_null : contains_char 0 path ≡ false =
        rw same (char_absent (name_char host) 0 full_name (ground arith) all_chars) in
      let some_full_name = full_namespace_name-nonempty prefix name some_name in
      (validate_ns_path_iff sys path).1
        (full_name, (same, some_full_name, single, no_dots, no_null, there))
