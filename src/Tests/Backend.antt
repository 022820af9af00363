-- ===== src/Tests/Backend.antt =====
-- The real backend on a small machine.
use segwire.Base.{true, false, List, [], ◌∷◌, ok, is_ok, ◌≡◌, refl, for_each}
use segwire.Utils.Names.{validate_namespace_name}
use segwire.Utils.Address.{validate_ip_address, check_octet}
use segwire.Utils.Domain.{validate_domain_name}
use segwire.Regex.{is_match}
use segwire.Netlink.Checks.{validate_resolver_config}
use segwire.Text.Numbers.{parse_uint}
use segwire.Text.{Text, lit, byte_len, contains_char, is_whitespace}
use segwire.Text.Equality.{text_eq}
use segwire.Text.Split.{split, trim_start, trim_end}
use segwire.Map.{lookup, insert}
use segwire.Netlink.{ResolverConfig, v4}
use segwire.Netlink.Refinement.{NamespaceCall, create, delete, run_simulated}
use segwire.Netlink.Simulated.{new_simulated}
use segwire.Host.{create_netns, delete_netns, self_ns}
use segwire.Rtnl.Routes.{Parsing}
use segwire.Netlink.Real.{ns_path_of, create_real, delete_real}
use segwire.Netlink.Real.Agreement.{
  refused, left_behind, run_real, run_granted, outcomes, run_real-run_granted, HasNames,
}
use segwire.Netlink.Real.Agreement.Simulation.{run_real-run_simulated, Agree}
use segwire.Netlink.Real.Settings.{configure_dns_real, dns_config_real}
use segwire.Netlink.Real.Resolver.Stored.{dns_config_real-configure_dns_real}
use segwire.Tests.Data.{ascii_digits}
use segwire.Tests.Machine.{
  Machine, machine, stuck, stuck-IsFiles, machine-IsFiles, machine-IsGranting, machine-IsStore,
}

abbrev empty_machine : Machine
empty_machine = record { files = []; descriptors = 3; has_sockets = true }

abbrev calls : List NamespaceCall
calls = create (lit "vpn") ∷ create (lit "vpn") ∷ delete (lit "vpn") ∷ delete (lit "a/b") ∷ []

-- The first creation leaves its placeholder, so that the second one is refused.
left_over : outcomes stuck calls empty_machine ≡ left_behind ∷ refused ∷ refused ∷ refused ∷ []
unfolding outcomes create_real delete_real create_netns delete_netns lookup insert text_eq
    ns_path_of lit validate_namespace_name byte_len is_match
left_over = refl

run_real-run_granted_example :
    ((run_granted (outcomes stuck calls empty_machine) calls (λ name. false)).0
      ≡ (run_real stuck calls empty_machine).0)
    × HasNames stuck
        (run_real stuck calls empty_machine).1
        (run_granted (outcomes stuck calls empty_machine) calls (λ name. false)).1
unfolding lookup
run_real-run_granted_example =
    run_real-run_granted stuck stuck-IsFiles calls empty_machine (λ name. false) (λ name. refl)

run_real-run_simulated_example :
    ((run_real machine calls empty_machine).0 ≡ (run_simulated calls (new_simulated 0)).0)
    × Agree machine machine-IsFiles machine-IsGranting
        (run_real machine calls empty_machine).1
        (run_simulated calls (new_simulated 0)).1
unfolding lookup
run_real-run_simulated_example =
    run_real-run_simulated machine machine-IsFiles machine-IsGranting calls empty_machine
      (new_simulated 0) (λ name. refl)

-- A machine with a namespace, where the current one cannot be told and no socket can be made.
abbrev vpn_machine : Machine
vpn_machine = record {
  files = (ns_path_of (lit "vpn"), []) ∷ [];
  descriptors = 3;
  has_sockets = false;
}

abbrev proc_machine : Machine
proc_machine = record { files = (self_ns, []) ∷ []; descriptors = 3; has_sockets = true }

abbrev dns : ResolverConfig
dns = record {
  servers = lit "10.0.0.1" ∷ [];
  search_domains = lit "example.org" ∷ lit "lan" ∷ [];
  options = lit "ndots:2" ∷ [];
}

abbrev std : Parsing
std = record { parse_ip = λ s. ok (v4 1); number_error = λ s. []; show_ip = λ ip. [] }

dns-configured : is_ok (configure_dns_real std machine (lit "vpn") dns vpn_machine).0 ≡ true
unfolding lookup text_eq ns_path_of lit configure_dns_real validate_namespace_name byte_len is_match
    validate_resolver_config for_each validate_ip_address split check_octet parse_uint
    validate_domain_name
dns-configured = refl

dns_config_real-configure_dns_real_example :
    (dns_config_real std machine
      (lit "vpn")
      (configure_dns_real std machine (lit "vpn") dns vpn_machine).1).0
    ≡ ok dns
unfolding lit contains_char trim_start trim_end is_whitespace
dns_config_real-configure_dns_real_example =
    dns_config_real-configure_dns_real std machine machine-IsStore (lit "vpn") dns vpn_machine
      ((refl, refl, refl, refl), tt) ((refl, refl), ((refl, refl), tt))
      ((refl, refl, refl, refl), tt) dns-configured
