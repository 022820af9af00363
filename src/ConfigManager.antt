-- ===== src/ConfigManager.antt =====
-- `ConfigManager` of crates/segwire-daemon/src/config.rs. What the methods ask of the file system, of
-- the crate `toml` and of the process environment is a snapshot, given to each call.
pub mod Prefix
pub mod Files
pub mod Invariant
pub mod Events
pub mod Updates
pub mod Names
pub mod Keyed
pub mod Watcher
pub mod Start
use segwire.Base.{
  ℕ, Bool, true, false, not, ◌&&◌, ◌||◌, Option, none, some, List, [], ◌∷◌, ◌++◌, ◌==◌,
  if◌then◌else◌, Result, ok, err, ensure, map_err, ok_or, is_ok, ◌>>=◌, ◌>>◌,
}
use segwire.Text.{Text, lit, contains_char, is_empty}
use segwire.Text.Equality.{text_eq}
use segwire.Text.Split.{rsplit_once}
use segwire.Map.{Map, insert, retain}
use segwire.Error.{SegwireResult, SegwireError, config, invalid_value, file_not_found, invalid_toml}
use segwire.Utils.Address.{UnicodeDigits}
use segwire.Config.{DaemonConfig, NamespaceConfig}
use segwire.Config.Validate.{Base64, validate_daemon_config, validate_namespace_config, invalid}
use segwire.Config.Substitute.{substitute_environment_variables}
use Prefix.{matches_prefix, full_namespace_name}

-- One entry of a directory: its path, its file name, and whether it is a regular file.
pub record DirEntry : Type 0 where
  pub path : Text
  pub file_name : Text
  pub is_file : Bool

-- What the operating system and the crate `toml` answer; an error is the text that it prints.
pub record FileSystem : Type 0 where
  pub exists : Text → Bool
  pub metadata : Text → Result Text (Unit {0})
  pub modified : Text → Result Text ℕ
  pub read_to_string : Text → Option Text
  pub read_dir : Text → Result Text (List (Result Text DirEntry))
  pub parse_daemon : Text → Result Text DaemonConfig
  pub parse_namespace : Text → Result Text NamespaceConfig
  pub system_env : Text → Option Text

pub record NamespaceConfigEntry : Type 0 where
  pub config : NamespaceConfig
  pub file_path : Text
  pub full_name : Text
  pub last_modified : ℕ

pub record ConfigManager : Type 0 where
  pub daemon_config : DaemonConfig
  pub config_file_path : Text
  pub namespace_configs : Map NamespaceConfigEntry

abbrev pub namespace_prefix : ConfigManager → Text
namespace_prefix m = m.daemon_config.daemon.namespace_prefix

abbrev pub config_directory : ConfigManager → Text
config_directory m = m.daemon_config.daemon.config_dir

-- Path::extension, of a file name
unfoldable pub extension : Text → Option Text
extension file_name = elim (rsplit_once b'.' file_name) [
  | none ↦ none
  | some (stem, ext) ↦ if is_empty stem then none else some ext
]

abbrev pub is_toml : DirEntry → Bool
is_toml e = elim (extension e.file_name) [ none ↦ false | some ext ↦ text_eq ext (lit "toml") ]

-- DaemonConfig::from_file
unfoldable pub daemon_config_from_file : FileSystem → Text → SegwireResult DaemonConfig
daemon_config_from_file fs path = do
  content ← ok_or (fs.read_to_string path) (config (file_not_found path))
  c ← map_err (λ e. config (invalid_toml e)) (fs.parse_daemon content)
  validate_daemon_config fs.exists c
  ok c

-- ConfigManager::load_master_config
unfoldable pub load_master_config : FileSystem → Text → SegwireResult DaemonConfig
unfolding daemon_config_from_file
load_master_config fs path = do
  ensure (fs.exists path) (config (file_not_found path))
  map_err (λ _. config (file_not_found path)) (fs.metadata path)
  c ← daemon_config_from_file fs path
  ensure (fs.exists c.daemon.config_dir) (invalid (lit "daemon.config_dir") c.daemon.config_dir)
  entries ←
      map_err (λ e. invalid (lit "daemon.config_dir") (lit "Directory not readable: " ++ e))
        (fs.read_dir c.daemon.config_dir)
  ok c

-- A name with a separator is managed only if it bears the prefix.
unfoldable pub should_manage : Text → Text → Bool
should_manage prefix name =
    if contains_char b'-' name || contains_char b'_' name then matches_prefix prefix name else true

module _ ⦃u : UnicodeDigits⦄ ⦃b : Base64⦄ (fs : FileSystem) where
  -- NamespaceConfig::from_file
  unfoldable pub namespace_config_from_file : Text → SegwireResult NamespaceConfig
  namespace_config_from_file path = do
    content ← ok_or (fs.read_to_string path) (config (file_not_found path))
    raw ← map_err (λ e. config (invalid_toml e)) (fs.parse_namespace content)
    c ← substitute_environment_variables fs.system_env raw
    validate_namespace_config c
    ok c

  -- ConfigManager::load_namespace_config
  unfoldable pub load_namespace_config : Text → Text → SegwireResult (Option NamespaceConfigEntry)
  unfolding should_manage
  load_namespace_config prefix path = do
    map_err (λ _. config (file_not_found path)) (fs.metadata path)
    last_modified ←
        map_err (λ e. invalid (lit "file_metadata") (lit "Cannot get modification time: " ++ e))
          (fs.modified path)
    c ← namespace_config_from_file path
    ok (
        if should_manage prefix c.namespace.name
        then some (record {
          config = c;
          file_path = path;
          full_name = full_namespace_name prefix c.namespace.name;
          last_modified = last_modified;
        })
        else none)

  -- One file of a scan: its entry is added, and an error or a skip goes on.
  abbrev pub add_loaded :
      SegwireResult (Option NamespaceConfigEntry)
      → List Text × Map NamespaceConfigEntry
      → List Text × Map NamespaceConfigEntry
  add_loaded (ok (some entry)) (loaded, configs) =
      (loaded ++ entry.full_name ∷ [], insert entry.full_name entry configs)
  add_loaded (ok none) found = found
  add_loaded (err e) found = found

  unfoldable pub scan_entry :
      Text → DirEntry → List Text × Map NamespaceConfigEntry → List Text × Map NamespaceConfigEntry
  scan_entry prefix entry found =
      if entry.is_file && is_toml entry
      then add_loaded (load_namespace_config prefix entry.path) found
      else found

  -- The loop of the scan; an entry that cannot be read ends it.
  unfoldable pub scan_entries :
      Text
      → List (Result Text DirEntry)
      → List Text × Map NamespaceConfigEntry
      → SegwireResult (List Text × Map NamespaceConfigEntry)
  scan_entries prefix [] found = ok found
  scan_entries prefix (err e ∷ rest) found =
      err (invalid (lit "config_dir") (lit "Cannot read directory entry: " ++ e))
  scan_entries prefix (ok entry ∷ rest) found =
      scan_entries prefix rest (scan_entry prefix entry found)

  scan_directory : Text → Text → SegwireResult (List Text × Map NamespaceConfigEntry)
  scan_directory prefix config_dir = do
    entries ←
        map_err (λ e. invalid (lit "config_dir") (lit "Cannot read directory: " ++ e))
          (fs.read_dir config_dir)
    scan_entries prefix entries ([], [])

  abbrev store_scanned :
      SegwireResult (List Text × Map NamespaceConfigEntry)
      → ConfigManager
      → SegwireResult (List Text) × ConfigManager
  store_scanned (ok (loaded, configs)) m = (ok loaded, record m { namespace_configs = configs })
  store_scanned (err e) m = (err e, m)

  -- ConfigManager::scan_namespace_configs; the stored map changes only if the scan succeeds.
  unfoldable pub scan_namespace_configs : ConfigManager → SegwireResult (List Text) × ConfigManager
  unfolding scan_entries scan_entry scan_directory
  scan_namespace_configs m =
      store_scanned (scan_directory (namespace_prefix m) (config_directory m)) m

  -- ConfigManager::reload_namespace_config
  abbrev store_loaded :
      SegwireResult (Option NamespaceConfigEntry)
      → ConfigManager
      → SegwireResult (Option Text) × ConfigManager
  store_loaded (ok (some entry)) m = (
    ok (some entry.full_name),
    record m { namespace_configs = insert entry.full_name entry m.namespace_configs },
  )
  store_loaded (ok none) m = (ok none, m)
  store_loaded (err e) m = (err e, m)

  unfoldable pub reload_namespace_config :
      Text → ConfigManager → SegwireResult (Option Text) × ConfigManager
  reload_namespace_config path m = store_loaded (load_namespace_config (namespace_prefix m) path) m

-- ConfigManager::reload_master_config
unfoldable pub reload_master_config :
    FileSystem → ConfigManager → SegwireResult (Unit {0}) × ConfigManager
reload_master_config fs m = elim (load_master_config fs m.config_file_path) [
  | ok c ↦ (ok tt, record m { daemon_config = c })
  | err e ↦ (err e, m)
]

-- The last key whose entry is removed.
unfoldable pub last_removed : Text → Map NamespaceConfigEntry → Option Text
last_removed path [] = none
last_removed path ((name, entry) ∷ rest) = elim (last_removed path rest) [
  | some later ↦ some later
  | none ↦ if text_eq entry.file_path path then some name else none
]

-- ConfigManager::remove_namespace_config
unfoldable pub remove_namespace_config : Text → ConfigManager → Option Text × ConfigManager
unfolding last_removed
remove_namespace_config path m = (
  last_removed path m.namespace_configs,
  record m {
    namespace_configs =
        retain (λ name entry. not (text_eq entry.file_path path)) m.namespace_configs;
  },
)

pub data ConfigFileEvent : Type 0 where
  created modified deleted : Text → ConfigFileEvent

abbrev named :
    SegwireResult (Option Text) × ConfigManager → SegwireResult (List Text) × ConfigManager
named (ok (some name), m) = (ok (name ∷ []), m)
named (ok none, m) = (ok [], m)
named (err e, m) = (err e, m)

abbrev removed : Option Text × ConfigManager → SegwireResult (List Text) × ConfigManager
removed (some name, m) = (ok (name ∷ []), m)
removed (none, m) = (ok [], m)

module _ ⦃u : UnicodeDigits⦄ ⦃b : Base64⦄ (fs : FileSystem) where
  -- A changed master file: its settings first, then a scan under them.
  abbrev rescan :
      SegwireResult (Unit {0}) × ConfigManager → SegwireResult (List Text) × ConfigManager
  rescan (ok done, m) = scan_namespace_configs fs m
  rescan (err e, m) = (err e, m)

  -- ConfigManager::handle_file_event
  unfoldable pub handle_file_event :
      ConfigFileEvent → ConfigManager → SegwireResult (List Text) × ConfigManager
  unfolding scan_namespace_configs reload_master_config reload_namespace_config
      remove_namespace_config
  handle_file_event (created path) m = named (reload_namespace_config fs path m)
  handle_file_event (modified path) m =
      if text_eq path m.config_file_path
      then rescan (reload_master_config fs m)
      else named (reload_namespace_config fs path m)
  handle_file_event (deleted path) m = removed (remove_namespace_config path m)
