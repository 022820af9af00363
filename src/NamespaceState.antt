-- ===== src/NamespaceState.antt =====
-- `NamespaceState` and `NamespaceStatus` of crates/segwire-common/src/dbus.rs. Where the source reads
-- the clock, the operation takes the reading, in nanoseconds.
use segwire.Base.{
  ℕ, ◌/◌, Bool, true, false, List, [], Result, ok, err, ◌++◌, if◌then◌else◌, ◌≡◌, refl,
}
use segwire.Text.{Text, lit}
use segwire.Text.Equality.{text_eq}

pub data NamespaceStatus : Type 0 where
  creating active failed deleting : NamespaceStatus

pub record InterfaceInfo : Type 0 where
  pub name : Text
  pub interface_type : Text
  pub status : Text
  pub addresses : List Text

pub record RouteInfo : Type 0 where
  pub destination : Text
  pub gateway : Text
  pub metric : ℕ
  pub interface : Text

pub record DnsInfo : Type 0 where
  pub servers : List Text
  pub search_domains : List Text

pub record NamespaceState : Type 0 where
  pub name : Text
  pub full_name : Text
  pub status : NamespaceStatus
  pub config_path : Text
  pub interfaces : List InterfaceInfo
  pub routes : List RouteInfo
  pub dns_config : DnsInfo
  pub created_at : ℕ
  pub last_updated : ℕ

-- Duration::as_secs
abbrev pub as_secs : ℕ → ℕ
as_secs nanos = nanos / 1_000_000_000

unfoldable pub new_state : Text → Text → Text → ℕ → NamespaceState
new_state name full_name config_path now = record {
  name = name;
  full_name = full_name;
  status = creating;
  config_path = config_path;
  interfaces = [];
  routes = [];
  dns_config = record { servers = []; search_domains = [] };
  created_at = as_secs now;
  last_updated = as_secs now;
}

unfoldable pub touch : ℕ → NamespaceState → NamespaceState
touch now s = record s { last_updated = as_secs now }

unfoldable pub set_status : NamespaceStatus → ℕ → NamespaceState → NamespaceState
unfolding touch
set_status status now s = touch now (record s { status = status })

unfoldable pub is_failed : NamespaceState → Bool
is_failed s = elim s.status [ failed ↦ true | _ ↦ false ]

unfoldable pub is_active : NamespaceState → Bool
is_active s = elim s.status [ active ↦ true | _ ↦ false ]

-- NamespaceStatus::as_str and from_str
unfoldable pub as_str : NamespaceStatus → Text
as_str creating = lit "creating"
as_str active = lit "active"
as_str failed = lit "failed"
as_str deleting = lit "deleting"

unfoldable pub from_str : Text → Result Text NamespaceStatus
from_str s =
    if text_eq s (lit "creating")
    then ok creating
    else if text_eq s (lit "active")
    then ok active
    else if text_eq s (lit "failed")
    then ok failed
    else if text_eq s (lit "deleting")
    then ok deleting
    else err (lit "unknown namespace status: " ++ s)

-- A status survives the way over D-Bus as text.
pub from_str-as_str : (status : NamespaceStatus) → from_str (as_str status) ≡ ok status
unfolding from_str as_str lit text_eq
from_str-as_str creating = refl
from_str-as_str active = refl
from_str-as_str failed = refl
from_str-as_str deleting = refl
