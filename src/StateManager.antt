-- ===== src/StateManager.antt =====
-- `NamespaceStateManager` of crates/segwire-daemon/src/namespace_state.rs, over the interface
-- `Netlink`. A call whose error the source only logs gives the state behind it.
pub mod Interfaces
pub mod Create
pub mod Sync
pub mod Tracking
pub mod Outcomes
pub mod Settled
pub mod Maintenance
pub mod Invariant
pub mod Converge
use segwire.Base.{
  ℕ, ◌+◌, ◌-◌, ◌*◌, Bool, true, false, ◌&&◌, Option, none, some, List, [], ◌∷◌, map, ◌++◌, ltb, leb,
  if◌then◌else◌, ◌==◌,
}
use segwire.Text.{Text, lit}
use segwire.Map.{Map, lookup, insert, remove}
use segwire.NamespaceState.{
  NamespaceState, NamespaceStatus, active, creating, failed, deleting, is_failed, touch,
  InterfaceInfo, RouteInfo,
}
use segwire.Netlink.{Netlink, NamespaceInfo}
use segwire.Config.{VirtualInterface, Route}
use segwire.ConfigManager.{NamespaceConfigEntry}

pub record NamespaceStateManager (K : Type 0) : Type 0 where
  pub namespace_states : Map NamespaceState
  pub netlink_manager : K
  pub last_sync : ℕ
  pub sync_interval : ℕ

pub data ConflictResolution : Type 0 where
  create_namespace delete_namespace : ConflictResolution

pub record StateConflict : Type 0 where
  pub namespace_name : Text
  pub description : Text
  pub resolution : ConflictResolution

pub data SyncAction : Type 0 where
  created updated no_change : SyncAction
  conflict : StateConflict → SyncAction

pub record SyncResult : Type 0 where
  pub created : List Text
  pub updated : List Text
  pub deleted : List Text
  pub conflicts : List StateConflict
  pub errors : List Text

module _ {K : Type 0} where
  -- update_namespace_state
  unfoldable pub update_namespace_state :
      NamespaceState → NamespaceStateManager K → NamespaceStateManager K
  update_namespace_state s m = record m {
    namespace_states = insert s.full_name s m.namespace_states;
  }

  -- remove_namespace_state
  unfoldable pub remove_namespace_state : Text → NamespaceStateManager K → NamespaceStateManager K
  remove_namespace_state name m = record m { namespace_states = remove name m.namespace_states }

  abbrev change_state :
      Text
      → (NamespaceState → K → NamespaceState × K)
      → Option NamespaceState
      → NamespaceStateManager K
      → NamespaceStateManager K
  change_state name f none m = m
  change_state name f (some s) m =
      let (s', k) = f s m.netlink_manager in
      record m { namespace_states = insert name s' m.namespace_states; netlink_manager = k }

  -- `if let Some(state) = self.get_namespace_state_mut(name) { … }`, where the block may read the clock
  unfoldable pub with_state :
      Text
      → (NamespaceState → K → NamespaceState × K)
      → NamespaceStateManager K
      → NamespaceStateManager K
  with_state name f m = change_state name f (lookup name m.namespace_states) m

-- update_state_from_config_and_actual, less the reading of the clock at its end
abbrev interface_info : Text → Text → Text → InterfaceInfo
interface_info status name kind = record {
  name = name;
  interface_type = kind;
  status = status;
  addresses = [];
}

abbrev route_info : Text → Text → ℕ → RouteInfo
route_info destination gateway metric = record {
  destination = destination;
  gateway = gateway;
  metric = metric;
  interface = [];
}

abbrev metric_or_zero : Option ℕ → ℕ
metric_or_zero none = 0
metric_or_zero (some n) = n

abbrev gateway_route : Option Text → List RouteInfo
gateway_route none = []
gateway_route (some gateway) = route_info (lit "default") gateway 0 ∷ []

unfoldable pub update_state_from_config_and_actual :
    NamespaceConfigEntry → NamespaceInfo → ℕ → NamespaceState → NamespaceState
unfolding touch
update_state_from_config_and_actual entry actual now s =
    let status = if actual.active then lit "up" else lit "down" in
    touch now (record s {
      interfaces =
          map (λ (name : Text). interface_info status name (lit "physical"))
            entry.config.interfaces.move_interfaces
          ++ map (λ (vif : VirtualInterface). interface_info status vif.name vif.interface_type)
              entry.config.interfaces.virtual_interfaces;
      routes =
          map (λ (r : Route). route_info r.destination r.gateway (metric_or_zero r.metric))
            entry.config.routing.routes
          ++ gateway_route entry.config.routing.default_gateway;
      dns_config = record {
        servers = entry.config.dns.servers;
        search_domains = entry.config.dns.search;
      };
      status = if actual.active then active else s.status;
    })

-- The keys of failed states older than an hour.
unfoldable pub expired_keys : ℕ → Map NamespaceState → List Text
unfolding is_failed
expired_keys now [] = []
expired_keys now ((name, s) ∷ rest) =
    let later = expired_keys now rest in
    if is_failed s && ltb (s.last_updated * 1_000_000_000) (now - 3600 * 1_000_000_000)
    then name ∷ later
    else later

module _ {K : Type 0} where
  unfoldable pub remove_all : List Text → NamespaceStateManager K → NamespaceStateManager K
  unfolding remove_namespace_state
  remove_all [] m = m
  remove_all (name ∷ names) m = remove_all names (remove_namespace_state name m)

module _ {K : Type 0} (net : Netlink K) where
  -- needs_sync; a clock that stands before the last synchronisation asks for one
  unfoldable pub needs_sync : NamespaceStateManager K → Bool × NamespaceStateManager K
  needs_sync m =
      let (now, k) = net.now m.netlink_manager in
      (
        (if ltb now m.last_sync then true else leb m.sync_interval (now - m.last_sync)),
        record m { netlink_manager = k },
      )

  -- perform_maintenance
  unfoldable pub perform_maintenance : NamespaceStateManager K → NamespaceStateManager K
  unfolding expired_keys remove_all
  perform_maintenance m =
      let (now, k) = net.now m.netlink_manager in
      remove_all (expired_keys now m.namespace_states) (record m { netlink_manager = k })
