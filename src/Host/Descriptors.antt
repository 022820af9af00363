-- ===== src/Host/Descriptors.antt =====
-- The descriptors of namespaces in netns_raw.rs and netlink_raw.rs of crates/segwire-daemon/src: which
-- are closed again, and which stay open behind an error.
use segwire.Base.{ℕ, ◌+◌, ◌-◌, Bool, true, false, Result, ok, err, is_ok, ◌≡◌, if◌then◌else◌}
use segwire.Text.{Text}
use segwire.Host.{Host, self_ns}
use segwire.Rtnl.{RouteNetlinkMessage, RequestFlags}

abbrev pub one_if : Bool → ℕ
one_if true = 1
one_if false = 0

-- `count` is the number of open descriptors: an open adds one, a close takes one away, and entering a
-- namespace, a socket that is closed behind its use and a request on it leave it.
pub record IsCount {K : Type 0} (host : Host K) (count : K → ℕ) : Type 0 where
  pub open_path :
      (path : Text) (k : K)
      → count (host.open_path path k).1 ≡ count k + one_if (is_ok (host.open_path path k).0)
  pub close : (fd : ℕ) (k : K) → count (host.close fd k) ≡ count k - 1
  pub setns : (fd : ℕ) (k : K) → count (host.setns fd k).1 ≡ count k
  pub open_route : (k : K) → count (host.open_route k).1 ≡ count k
  pub request :
      (flags : RequestFlags) (msg : RouteNetlinkMessage) (k : K)
      → count (host.request flags msg k).1 ≡ count k

module _ {K : Type 0} (host : Host K) where
  -- How many descriptors an attempt to enter a namespace leaves open.
  abbrev left_behind : Result Text ℕ → K → ℕ
  left_behind (err e) k = 1
  left_behind (ok fd) k = if is_ok (host.setns fd k).0 then 0 else 2

  abbrev pub left_open : Text → K → ℕ
  left_open ns_path k =
      let (orig, k1) = host.open_path self_ns k in
      let (target, k2) = host.open_path ns_path k1 in
      if is_ok orig then left_behind target k2 else 0
