-- ===== src/Tests/Entering.antt =====
-- The helper that enters a namespace, and the checks of security.rs and of the network.
use segwire.Base.{ℕ, true, false, some, List, [], ◌∷◌, ok, ◌≡◌, refl, any, for_each}
use segwire.Text.{Text, lit, contains_char, contains_text, strip_prefix, byte_len}
use segwire.Text.Equality.{text_eq}
use segwire.Text.Split.{split}
use segwire.Text.Numbers.{parse_uint}
use segwire.Regex.{is_match}
use segwire.Utils.Names.{validate_namespace_name, validate_interface_name}
use segwire.Utils.Address.{validate_ip_address, check_octet, validate_cidr}
use segwire.Utils.Domain.{validate_domain_name}
use segwire.Sorting.{sort, dedup, first_repeat}
use segwire.NsEnter.{System, main, parse_args, validate_ns_path}
use segwire.NsEnter.Privileges.{is_exec, full_run, AllGranted, main-exec}
use segwire.Config.{RoutingConfig, DnsConfig}
use segwire.Config.Validate.{validate_routing, validate_route, validate_dns}
use segwire.Tests.Data.{ascii_digits, office_route}

-- A kernel that grants everything to the user 1000.
abbrev pub granting : System
granting = record {
  symlink_metadata = λ path. ok false;
  open_file = λ path. ok 3;
  setns = λ fd. ok tt;
  getgid = 1000;
  getuid = 1000;
  setresgid = λ r e s. ok tt;
  setresuid = λ r e s. ok tt;
  no_new_privs = ok tt;
  execvp = λ cmd args. ok tt;
}

abbrev ip_link : List Text
ip_link = lit "segwire-ns-enter" ∷ lit "/run/netns/vpn" ∷ lit "--" ∷ lit "ip" ∷ lit "link" ∷ []

executes : any is_exec (main granting ip_link).0 ≡ true
unfolding main lit text_eq strip_prefix contains_char contains_text
executes = refl

main-exec_example :
    (ns_path : Text) × (cmd : Text) × (cmd_args : List Text) × (ns_fd : ℕ) × (parse_args ip_link
      ≡ ok (ns_path, cmd, cmd_args))
    × (validate_ns_path granting ns_path ≡ ok tt)
    × AllGranted granting ns_path ns_fd
    × ((main granting ip_link).0 ≡ full_run granting ns_path ns_fd cmd cmd_args)
main-exec_example = main-exec granting ip_link executes

vpn-valid : validate_namespace_name (lit "vpn") ≡ ok tt
unfolding validate_namespace_name lit byte_len is_match
vpn-valid = refl

eth-valid : validate_interface_name (lit "eth0") ≡ ok tt
unfolding validate_interface_name lit byte_len is_match
eth-valid = refl

abbrev office : RoutingConfig
office = record { default_gateway = some (lit "10.0.0.2"); routes = office_route ∷ [] }

office-valid : validate_routing office ≡ ok tt
unfolding validate_routing lit validate_ip_address is_match for_each split check_octet parse_uint
    validate_route validate_cidr first_repeat sort
office-valid = refl

abbrev resolver : DnsConfig
resolver = record { servers = lit "1.1.1.1" ∷ []; search = lit "lan" ∷ [] }

resolver-valid : validate_dns resolver ≡ ok tt
unfolding validate_dns lit validate_ip_address is_match for_each split check_octet parse_uint
    validate_domain_name byte_len dedup sort
resolver-valid = refl
