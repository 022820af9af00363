-- ===== src/Netlink/Real.antt =====
-- The real backend of `NetlinkManager` (crates/segwire-daemon/src/netlink.rs): named namespaces as files
-- of a directory, and the interfaces in them.
pub mod Devices
pub mod Settings
pub mod Resolver
pub mod Agreement
use segwire.Base.{
  ℕ, Bool, true, false, not, Option, none, some, List, [], ◌∷◌, ◌++◌, Result, ok, err, ensure, any,
  if◌then◌else◌,
}
use segwire.Text.{Text, lit}
use segwire.Text.Equality.{text_eq}
use segwire.Map.{Map, insert}
use segwire.Error.{
  SegwireError, SegwireResult, network, from_netlink, namespace_exists, namespace_not_found,
  create_failed, delete_failed, insufficient_privileges, socket_error,
}
use segwire.Utils.Names.{validate_namespace_name}
use segwire.Netlink.{NamespaceInfo}
use segwire.Host.{
  Host, Action, ◌>>=◌, ◌>>◌, from_result, asking, mapping, inside, ignoring, create_netns,
  delete_netns, ns_inode, in_namespace,
}
use segwire.Rtnl.Links.{dump_interface_names_fresh}

unfoldable pub netns_run_dir : Text
unfolding lit
netns_run_dir = lit "/var/run/netns"

unfoldable pub ns_path_of : Text → Text
unfolding netns_run_dir
ns_path_of name = netns_run_dir ++ (b'/' ∷ name)

-- A check that makes no call.
abbrev pub check : {K A : Type 0} → SegwireResult A → Action K SegwireError A
check = from_result

abbrev pub text_any : Text → List Text → Bool
text_any name = any (λ n. text_eq n name)

module _ {K : Type 0} (host : Host K) where
  abbrev make_dir : Bool → Action K SegwireError (Unit {0})
  make_dir true = check (ok tt)
  make_dir false =
      mapping
        (λ e. from_netlink (
          create_failed (lit "netns directory")
            (lit "failed to create " ++ (netns_run_dir ++ (lit ": " ++ e)))))
        (host.create_dir_all netns_run_dir)

  -- NetlinkManager::new
  unfoldable pub new_real : Action K SegwireError (Unit {0})
  unfolding netns_run_dir lit
  new_real = do
    root ← asking host.is_root
    check (ensure root (from_netlink insufficient_privileges))
    there ← asking (host.exists netns_run_dir)
    make_dir there

  abbrev pub real_info : Text → K → NamespaceInfo
  real_info name k = record {
    name = name;
    id = ns_inode host (ns_path_of name) k;
    path = ns_path_of name;
    active = true;
  }

  -- What a creation does with the result of `create_netns`.
  abbrev finish_creation : Text → Result Text (Unit {0}) → Action K SegwireError NamespaceInfo
  finish_creation name (err msg) = do
    ignoring host (host.remove_file (ns_path_of name))
    check (err (from_netlink (create_failed name msg)))
  finish_creation name (ok _) = asking (real_info name)

  -- create_namespace
  unfoldable pub create_real : Text → Action K SegwireError NamespaceInfo
  unfolding lit
  create_real name = do
    check (validate_namespace_name name)
    there ← asking (host.exists (ns_path_of name))
    check (ensure (not there) (from_netlink (namespace_exists name)))
    mapping (λ e. from_netlink (create_failed name (lit "create file: " ++ e)))
        (host.create_file (ns_path_of name))
    made ← inside host (create_netns host (ns_path_of name))
    finish_creation name made

  -- The test of the existence of a namespace, with the error that the callers make of it.
  abbrev pub namespace_there : Text → Action K SegwireError (Unit {0})
  namespace_there name = do
    there ← asking (host.exists (ns_path_of name))
    check (ensure there (from_netlink (namespace_not_found name)))

  -- delete_namespace
  unfoldable pub delete_real : Text → Action K SegwireError (Unit {0})
  unfolding lit
  delete_real name = do
    check (validate_namespace_name name)
    namespace_there name
    mapping (λ e. from_netlink (delete_failed name e)) (delete_netns host (ns_path_of name))

  -- namespace_exists
  unfoldable pub exists_real : Text → Action K SegwireError Bool
  unfolding ns_path_of
  exists_real name = asking (host.exists (ns_path_of name))

  abbrev add_entry : K → Option Text → Map NamespaceInfo → Map NamespaceInfo
  add_entry k none map = map
  add_entry k (some name) map = insert name (real_info name k) map

  abbrev add_entries : K → List (Option Text) → Map NamespaceInfo → Map NamespaceInfo
  add_entries k [] map = map
  add_entries k (entry ∷ rest) map = add_entries k rest (add_entry k entry map)

  abbrev list_entries :
      Bool → Result Text (List (Option Text)) → Action K SegwireError (Map NamespaceInfo)
  list_entries false entries = check (ok [])
  list_entries true (err e) =
      check (err (from_netlink (create_failed (lit "list") (lit "read_dir failed: " ++ e))))
  list_entries true (ok entries) = asking (λ k. add_entries k entries [])

  -- list_namespaces
  unfoldable pub list_real : Action K SegwireError (Map NamespaceInfo)
  unfolding netns_run_dir ns_path_of insert lit
  list_real = do
    there ← asking (host.exists netns_run_dir)
    entries ← asking (host.read_dir netns_run_dir)
    list_entries there entries

  -- get_namespace_info
  unfoldable pub info_real : Text → Action K SegwireError NamespaceInfo
  unfolding ns_path_of
  info_real name = do
    check (validate_namespace_name name)
    namespace_there name
    asking (real_info name)

  -- list_interfaces, interface_exists and interface_available
  unfoldable pub list_interfaces : Action K SegwireError (List Text)
  unfolding dump_interface_names_fresh
  list_interfaces = mapping (λ e. from_netlink (socket_error e)) (dump_interface_names_fresh host)

  unfoldable pub interface_exists : Text → Action K SegwireError Bool
  unfolding list_interfaces text_eq
  interface_exists interface_name = do
    interfaces ← list_interfaces
    check (ok (text_any interface_name interfaces))

  unfoldable pub interface_available : Text → Action K SegwireError Bool
  unfolding interface_exists lit
  interface_available interface_name =
      if text_eq interface_name (lit "lo")
      then check (ok false)
      else interface_exists interface_name

  -- list_namespace_interfaces
  unfoldable pub list_namespace_interfaces : Text → Action K SegwireError (List Text)
  unfolding dump_interface_names_fresh in_namespace ns_path_of
  list_namespace_interfaces name = do
    check (validate_namespace_name name)
    namespace_there name
    in_namespace host network network (ns_path_of name) (dump_interface_names_fresh host)
