-- ===== src/Capabilities.antt =====
-- crates/segwire-daemon/src/capabilities.rs: whether the process may manage namespaces. What the process
-- finds about itself is a parameter.
use segwire.Base.{
  ℕ, ◌+◌, ◌-◌, ◌*◌, ◌/◌, ◌%◌, ◌^◌, Bool, true, false, ◌&&◌, ◌||◌, Option, none, some, List, [], ◌∷◌,
  ◌++◌, Result, ok, err, ◌==◌, leb, if◌then◌else◌,
}
use segwire.Text.{
  Text, lit, is_empty, is_digit, in_range, is_hex_digit, strip_prefix, contains_text,
}
use segwire.Text.Equality.{text_eq}
use segwire.Text.Numbers.{parse_uint}
use segwire.Text.Split.{lines, trim}
use segwire.Error.{SegwireError, permission}

pub record Process : Type 0 where
  -- the effective user is root
  pub effective_root : Bool
  -- /proc/self/status and /proc/1/cgroup, where they can be read
  pub status : Option Text
  pub cgroup : Option Text
  pub exists : Text → Bool
  -- the environment variable `container`, where it is set
  pub container : Option Text

pub record CapabilityCheckResult : Type 0 where
  pub has_required_capabilities : Bool
  pub is_root : Bool
  pub is_container : Bool
  pub container_runtime : Option Text
  pub missing_capabilities : List Text
  pub warnings : List Text

abbrev hex_value : ℕ → ℕ
hex_value c = if is_digit c then c - b'0' else if in_range b'a' b'f' c then c - 87 else c - 55

unfoldable pub parse_hex_digits : ℕ → ℕ → Text → Option ℕ
parse_hex_digits max n [] = some n
parse_hex_digits max n (c ∷ s) =
    let m = n * 16 + hex_value c in
    let rest = parse_hex_digits max m s in if is_hex_digit c && leb m max then rest else none

-- u64::from_str_radix(_, 16)
unfoldable pub parse_hex_u64 : Text → Option ℕ
unfolding parse_hex_digits
parse_hex_u64 [] = none
parse_hex_u64 (c ∷ []) = if c == b'+' then none else parse_hex_digits (2 ^ 64 - 1) 0 (c ∷ [])
parse_hex_u64 (c ∷ d ∷ s) =
    if c == b'+'
    then parse_hex_digits (2 ^ 64 - 1) 0 (d ∷ s)
    else parse_hex_digits (2 ^ 64 - 1) 0 (c ∷ d ∷ s)

-- `bits & (1u64 << 21) != 0`
abbrev pub has_bit_21 : ℕ → Bool
has_bit_21 bits = bits / 2 ^ 21 % 2 == 1

abbrev has_bit_in : Option ℕ → Bool
has_bit_in none = false
has_bit_in (some bits) = has_bit_21 bits

unfoldable pub has_cap_sys_admin : Text → Bool
unfolding parse_hex_u64
has_cap_sys_admin cap_eff_hex =
    if is_empty cap_eff_hex then false else has_bit_in (parse_hex_u64 cap_eff_hex)

-- The rest of the first line that has the prefix.
unfoldable pub find_line : Text → List Text → Option Text
unfolding strip_prefix
find_line prefix [] = none
find_line prefix (line ∷ rest) = elim (strip_prefix prefix line) [
  | some found ↦ some found
  | none ↦ find_line prefix rest
]

abbrev effective_in : Option Text → Text
effective_in none = []
effective_in (some text) = elim (find_line (lit "CapEff:") (lines text)) [
  | none ↦ []
  | some rest ↦ trim rest
]

unfoldable pub read_effective_capabilities : Process → Text
unfolding lit lines trim find_line
read_effective_capabilities p = effective_in p.status

abbrev in_cgroup : Option Text → Option Text
in_cgroup none = none
in_cgroup (some cgroup) =
    if contains_text (lit "docker") cgroup
    then some (lit "Docker")
    else if contains_text (lit "lxc") cgroup
    then some (lit "LXC")
    else if contains_text (lit "kubepods") cgroup
    then some (lit "Kubernetes")
    else none

abbrev in_variable : Option Text → Option Text
in_variable none = none
in_variable (some runtime) =
    if text_eq runtime (lit "systemd-nspawn")
    then some (lit "systemd-nspawn")
    else some (lit "unknown")

abbrev first_of : Option Text → Option Text → Option Text
first_of none later = later
first_of (some runtime) later = some runtime

-- The runtime, where there is a container.
unfoldable pub detect_container_environment : Process → Option Text
unfolding lit contains_text text_eq
detect_container_environment p =
    if p.exists (lit "/.dockerenv")
    then some (lit "Docker")
    else if p.exists (lit "/run/.containerenv")
    then some (lit "Podman")
    else first_of (in_cgroup p.cgroup) (in_variable p.container)

abbrev seccomp_warning : Text
seccomp_warning =
    lit
      "Seccomp filter is active – if namespace syscalls fail, check that unshare(2) and setns(2) are allowed."

-- `unwrap_or(0)`
abbrev mode_in : Option ℕ → ℕ
mode_in none = 0
mode_in (some n) = n

-- A line with another mode is passed over.
unfoldable pub seccomp_lines : List Text → List Text
unfolding strip_prefix lit trim parse_uint
seccomp_lines [] = []
seccomp_lines (line ∷ rest) = elim (strip_prefix (lit "Seccomp:") line) [
  | none ↦ seccomp_lines rest
  | some mode ↦ elim (mode_in (parse_uint (2 ^ 32 - 1) (trim mode)) == 2) [
    | true ↦ seccomp_warning ∷ []
    | false ↦ seccomp_lines rest
  ]
]

unfoldable pub check_seccomp_status : Process → List Text
unfolding seccomp_lines lines
check_seccomp_status p = elim p.status [ none ↦ [] | some text ↦ seccomp_lines (lines text) ]

abbrev container_warnings : Process → Option Text → List Text
container_warnings p none = []
container_warnings p (some runtime) =
    (lit "Running inside a container ("
      ++ (runtime
          ++ lit
              "). Ensure the container has been started with --cap-add=SYS_ADMIN or an equivalent setting."))
    ∷ (if p.exists (lit "/var/run/netns")
        then []
        else lit
            "/var/run/netns does not exist – network namespace persistence may not work inside this container."
          ∷ [])

abbrev is_present : Option Text → Bool
is_present none = false
is_present (some runtime) = true

abbrev pub has_capability : Process → Bool
has_capability p = p.effective_root || has_cap_sys_admin (read_effective_capabilities p)

unfoldable pub check_capabilities : Process → CapabilityCheckResult
unfolding has_cap_sys_admin read_effective_capabilities detect_container_environment
    check_seccomp_status lit
check_capabilities p =
    let runtime = detect_container_environment p in
    record {
      has_required_capabilities = has_capability p;
      is_root = p.effective_root;
      is_container = is_present runtime;
      container_runtime = runtime;
      missing_capabilities = if has_capability p then [] else lit "CAP_SYS_ADMIN" ∷ [];
      warnings = container_warnings p runtime ++ check_seccomp_status p;
    }

-- Of `join(", ")` on the missing ones, of which there is one at most.
abbrev join_missing : List Text → Text
join_missing [] = []
join_missing (m ∷ ms) = m

unfoldable pub verify_privileges : Process → Result SegwireError CapabilityCheckResult
unfolding check_capabilities
verify_privileges p =
    let result = check_capabilities p in
    if result.has_required_capabilities
    then ok result
    else err (
        permission (
          lit "Daemon requires the following capabilities: cap_sys_admin. Missing: "
          ++ (join_missing result.missing_capabilities
              ++ lit
                  ". Either run as root or grant capabilities via systemd (AmbientCapabilities=CAP_SYS_ADMIN).")))
