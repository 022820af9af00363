-- ===== src/Netlink/Real/Resolver/Stored.antt =====
-- DNS settings that are configured for a namespace and asked for again.
use segwire.Base.{true, some, ok, is_ok, All, ◌≡◌, ap, arith}
use segwire.Text.{Text}
use segwire.Utils.Address.{UnicodeDigits}
use segwire.Utils.Names.{validate_namespace_name}
use segwire.Netlink.{ResolverConfig}
use segwire.Host.{Host}
use segwire.Rtnl.Routes.{Parsing}
use segwire.Netlink.Real.{ns_path_of}
use segwire.Netlink.Real.Settings.{configure_dns_real, dns_config_real, resolver_text, resolv_path}
use segwire.Netlink.Real.Resolver.{IsItem, IsWord, parse_resolver-resolver_text}

-- A file that has been written has what was written, and no file goes where one is made or written.
pub record IsStore {K : Type 0} (host : Host K) : Type 0 where
  pub written :
      (p content : Text) (k : K)
      → is_ok (host.write_all p content k).0 ≡ true
      → host.read_file p (host.write_all p content k).1 ≡ some content
  pub create_dir_all :
      (p q : Text) (k : K)
      → host.exists q k ≡ true
      → host.exists q (host.create_dir_all p k).1 ≡ true
  pub create_file :
      (p q : Text) (k : K) → host.exists q k ≡ true → host.exists q (host.create_file p k).1 ≡ true
  pub write_all :
      (p q content : Text) (k : K)
      → host.exists q k ≡ true
      → host.exists q (host.write_all p content k).1 ≡ true

module _ ⦃u : UnicodeDigits⦄ (std : Parsing) {K : Type 0} (host : Host K)
    (store : IsStore host) where
  -- What a configuration that succeeded leaves.
  configured :
      (name : Text) (dns : ResolverConfig) (k : K)
      → is_ok (configure_dns_real std host name dns k).0 ≡ true
      → (validate_namespace_name name ≡ ok tt)
        × (host.exists (ns_path_of name) (configure_dns_real std host name dns k).1 ≡ true)
        × (host.read_file (resolv_path name) (configure_dns_real std host name dns k).1
            ≡ some (resolver_text dns))
  unfolding configure_dns_real
  configured name dns k h =
      grind (arith, store.written, store.create_dir_all, store.create_file, store.write_all)

  -- DNS settings that have been configured for a namespace are those that are found there.
  pub dns_config_real-configure_dns_real :
      (name : Text) (dns : ResolverConfig) (k : K)
      → All IsItem dns.servers
      → All IsWord dns.search_domains
      → All IsItem dns.options
      → is_ok (configure_dns_real std host name dns k).0 ≡ true
      → (dns_config_real std host name (configure_dns_real std host name dns k).1).0 ≡ ok dns
  unfolding dns_config_real
  dns_config_real-configure_dns_real name dns k servers domains options done =
      let (valid, there, content) = configured name dns k done in
      rw (valid, there, content)
        (ap (λ d. ok d) (parse_resolver-resolver_text dns servers domains options))
