-- ===== src/Host.antt =====
-- What the daemon asks of the kernel and of the file system, and crates/segwire-daemon/src/netns_raw.rs
-- on it: the life of a named namespace, and work inside of one. A thread that is made is joined at once,
-- so that it is a part of its caller; it has its own network namespace and shares the descriptors.
pub mod Descriptors
use segwire.Base.{ℕ, ◌%◌, ◌^◌, Bool, Option, none, some, List, ◌++◌, Result, ok, err}
use segwire.Text.{Text, lit}
use segwire.Error.{NetlinkError}
use segwire.Rtnl.{RouteNetlinkMessage, RequestFlags, Payload}
use segwire.Config.{WireguardConfig}

-- A call that may change the state, and may fail.
abbrev pub Action : Type 0 → Type 0 → Type 0 → Type 0
Action K E A = K → Result E A × K

abbrev pub and_then : {K E A B : Type 0} → Result E A × K → (A → Action K E B) → Result E B × K
and_then (ok a, k) next = next a k
and_then (err e, k) next = (err e, k)

infixl 5 ◌>>=◌ ◌>>◌
abbrev pub ◌>>=◌ : {K E A B : Type 0} → Action K E A → (A → Action K E B) → Action K E B
◌>>=◌ call next k = and_then (call k) next

abbrev pub ◌>>◌ : {K E B : Type 0} → Action K E (Unit {0}) → Action K E B → Action K E B
◌>>◌ call next = call >>= λ _. next

-- A result that needs no call.
abbrev pub from_result : {K E A : Type 0} → Result E A → Action K E A
from_result r k = (r, k)

abbrev map_failure : {K E F A : Type 0} → (E → F) → Result E A × K → Result F A × K
map_failure f (ok a, k) = (ok a, k)
map_failure f (err e, k) = (err (f e), k)

-- A question to the state.
abbrev pub asking : {K E A : Type 0} → (K → A) → Action K E A
asking question k = (ok (question k), k)

-- `.map_err(f)`
abbrev pub mapping : {K E F A : Type 0} → (E → F) → Action K E A → Action K F A
mapping f call k = map_failure f (call k)

pub record Host (K : Type 0) : Type 0 where
  pub is_root : K → Bool
  -- Path::exists, fs::read_to_string, and the inode number where `metadata` gives one
  pub exists : Text → K → Bool
  pub read_file : Text → K → Option Text
  pub inode : Text → K → Option ℕ
  -- fs::read_dir, with the names of the entries; an entry may be an error
  pub read_dir : Text → K → Result Text (List (Option Text))
  pub create_dir_all : Text → Action K Text (Unit {0})
  pub create_file : Text → Action K Text (Unit {0})
  pub write_all : Text → Text → Action K Text (Unit {0})
  pub remove_file : Text → Action K Text (Unit {0})
  -- unshare(CLONE_NEWNET), the bind mount of /proc/self/ns/net, and umount2(MNT_DETACH)
  pub unshare : Action K Text (Unit {0})
  pub bind_mount : Text → Action K Text (Unit {0})
  pub umount : Text → Action K Text (Unit {0})
  pub open_path : Text → Action K Text ℕ
  pub close : ℕ → K → K
  pub setns : ℕ → Action K Text (Unit {0})
  -- NetlinkSocket::open, and `request` on the socket, which is closed behind its only use
  pub open_route : Action K NetlinkError (Unit {0})
  pub request : RequestFlags → RouteNetlinkMessage → Action K NetlinkError (List Payload)
  -- configure_wireguard_device, inside of a namespace
  pub configure_device : Text → WireguardConfig → Action K Text (Unit {0})

abbrev pub self_ns : Text
self_ns = lit "/proc/self/ns/net"

module _ {K : Type 0} (host : Host K) where
  unfoldable pub open_ns_fd : Text → Action K Text ℕ
  unfolding lit
  open_ns_fd path =
      mapping (λ e. lit "open ns fd " ++ (path ++ (lit ": " ++ e))) (host.open_path path)

  abbrev pub close_fd : {E : Type 0} → ℕ → Action K E (Unit {0})
  close_fd fd k = (ok tt, host.close fd k)

  unfoldable pub create_netns : Text → Action K Text (Unit {0})
  unfolding lit
  create_netns ns_path = do
    mapping (λ e. lit "unshare(CLONE_NEWNET) failed: " ++ e) host.unshare
    mapping (λ e. lit "bind mount failed: " ++ e) (host.bind_mount ns_path)

  unfoldable pub delete_netns : Text → Action K Text (Unit {0})
  unfolding lit
  delete_netns ns_path = do
    mapping (λ e. lit "umount2 failed: " ++ e) (host.umount ns_path)
    mapping (λ e. lit "remove file: " ++ e) (host.remove_file ns_path)

  -- The inode number `as u32`, and 0 where there is none.
  abbrev pub ns_inode : Text → K → ℕ
  ns_inode path k = elim (host.inode path k) [ none ↦ 0 | some n ↦ n % 2 ^ 32 ]

  -- A call whose failure is not looked at.
  abbrev pub ignoring : {E F A : Type 0} → Action K E A → Action K F (Unit {0})
  ignoring call k = (ok tt, (call k).1)

  -- A closure, which gives a result of its own and never fails the thread.
  abbrev pub inside : {E F A : Type 0} → Action K E A → Action K F (Result E A)
  inside call k = let (r, k') = call k in (ok r, k')

  unfoldable pub run_in_namespace :
      {E A : Type 0} → Text → Action K E A → Action K Text (Result E A)
  unfolding open_ns_fd lit
  run_in_namespace ns_path call = do
    orig_ns ← mapping (λ e. lit "open current ns: " ++ e) (open_ns_fd self_ns)
    target_ns ← mapping (λ e. lit "open target ns: " ++ e) (open_ns_fd ns_path)
    mapping (λ e. lit "setns to target: " ++ e) (host.setns target_ns)
    close_fd target_ns
    result ← inside call
    ignoring (host.setns orig_ns)
    close_fd orig_ns
    from_result (ok result)

  -- The two errors of a closure inside a namespace, both as the daemon's own.
  unfoldable pub in_namespace :
      {E F A : Type 0} → (Text → F) → (E → F) → Text → Action K E A → Action K F A
  in_namespace thread_failed failed ns_path call = do
    result ← mapping thread_failed (run_in_namespace ns_path call)
    mapping failed (from_result result)
