-- ===== src/ConfigManager/Keyed.antt =====
-- That every stored entry stands under its own full name, whatever fails.
use segwire.Base.{
  not, ◌&&◌, List, [], ◌∷◌, Option, none, some, Result, ok, err, ◌≡◌, refl, arith, map_err,
  >>=-eq-ok, Bool-cases, inl, inr,
}
use segwire.Text.{Text}
use segwire.Text.Equality.{text_eq}
use segwire.Map.{Map}
use segwire.Map.Entries.{Entries-insert, Entries-retain}
use segwire.Error.{SegwireResult}
use segwire.Utils.Address.{UnicodeDigits}
use segwire.Config.Validate.{Base64}
use segwire.ConfigManager.{
  FileSystem, DirEntry, NamespaceConfigEntry, ConfigManager, ConfigFileEvent, created, modified,
  deleted, namespace_prefix, config_directory, add_loaded, scan_entry, scan_entries, scan_directory,
  store_scanned, scan_namespace_configs, load_namespace_config, is_toml, store_loaded,
  reload_namespace_config, reload_master_config, remove_namespace_config, rescan, named, removed,
  handle_file_event,
}
use segwire.StateManager.Converge.{IsKeyed}

module _ ⦃u : UnicodeDigits⦄ ⦃b : Base64⦄ (fs : FileSystem) where
  add_loaded-IsKeyed :
      (r : SegwireResult (Option NamespaceConfigEntry))
      (found : List Text × Map NamespaceConfigEntry)
      → IsKeyed found.1
      → IsKeyed (add_loaded fs r found).1
  add_loaded-IsKeyed (ok (some entry)) (loaded, configs) h =
      Entries-insert (λ key e. e.full_name ≡ key) entry.full_name entry configs refl h
  add_loaded-IsKeyed (ok none) found h = h
  add_loaded-IsKeyed (err e) found h = h

  scan_entries-IsKeyed :
      (prefix : Text) (entries : List (Result Text DirEntry))
      (found result : List Text × Map NamespaceConfigEntry)
      → IsKeyed found.1
      → scan_entries fs prefix entries found ≡ ok result
      → IsKeyed result.1
  unfolding scan_entries scan_entry
  scan_entries-IsKeyed prefix [] found result h e = let same : found ≡ result = cc in rw (← same) h
  scan_entries-IsKeyed prefix (err x ∷ rest) found result h e = absurd (cc)
  scan_entries-IsKeyed prefix (ok entry ∷ rest) found result h e =
      scan_entries-IsKeyed prefix rest (scan_entry fs prefix entry found) result
        (elim (Bool-cases (entry.is_file && is_toml entry)) [
          | inl loads ↦
              rw loads (add_loaded-IsKeyed (load_namespace_config fs prefix entry.path) found h)
          | inr skips ↦ rw skips h
        ])
        e

  scan_directory-IsKeyed :
      (prefix dir : Text) (result : List Text × Map NamespaceConfigEntry)
      → scan_directory fs prefix dir ≡ ok result
      → IsKeyed result.1
  unfolding scan_directory
  scan_directory-IsKeyed prefix dir result h =
      let (entries, _, h') =
        >>=-eq-ok (map_err _ (fs.read_dir dir)) (λ l. scan_entries fs prefix l ([], [])) h in
      scan_entries-IsKeyed prefix entries ([], []) result tt h'

  store_scanned-IsKeyed :
      (r : SegwireResult (List Text × Map NamespaceConfigEntry)) (m : ConfigManager)
      → ((result : List Text × Map NamespaceConfigEntry) → r ≡ ok result → IsKeyed result.1)
      → IsKeyed m.namespace_configs
      → IsKeyed (store_scanned fs r m).1.namespace_configs
  store_scanned-IsKeyed (ok result) m new h = new result refl
  store_scanned-IsKeyed (err e) m new h = h

  pub scan_namespace_configs-IsKeyed :
      (m : ConfigManager)
      → IsKeyed m.namespace_configs
      → IsKeyed (scan_namespace_configs fs m).1.namespace_configs
  unfolding scan_namespace_configs
  scan_namespace_configs-IsKeyed m h =
      store_scanned-IsKeyed (scan_directory fs (namespace_prefix m) (config_directory m)) m
        (scan_directory-IsKeyed (namespace_prefix m) (config_directory m)) h

  store_loaded-IsKeyed :
      (r : SegwireResult (Option NamespaceConfigEntry)) (m : ConfigManager)
      → IsKeyed m.namespace_configs
      → IsKeyed (named (store_loaded fs r m)).1.namespace_configs
  store_loaded-IsKeyed (ok (some entry)) m h =
      Entries-insert (λ key e. e.full_name ≡ key) entry.full_name entry m.namespace_configs refl h
  store_loaded-IsKeyed (ok none) m h = h
  store_loaded-IsKeyed (err e) m h = h

  reload-IsKeyed :
      (path : Text) (m : ConfigManager)
      → IsKeyed m.namespace_configs
      → IsKeyed (named (reload_namespace_config fs path m)).1.namespace_configs
  unfolding reload_namespace_config
  reload-IsKeyed path m h =
      store_loaded-IsKeyed (load_namespace_config fs (namespace_prefix m) path) m h

  removed-IsKeyed :
      (r : Option Text × ConfigManager)
      → IsKeyed r.1.namespace_configs
      → IsKeyed (removed r).1.namespace_configs
  removed-IsKeyed (some name, m) h = h
  removed-IsKeyed (none, m) h = h

  rescan-IsKeyed :
      (r : SegwireResult (Unit {0}) × ConfigManager)
      → IsKeyed r.1.namespace_configs
      → IsKeyed (rescan fs r).1.namespace_configs
  rescan-IsKeyed (ok _, m) h = scan_namespace_configs-IsKeyed m h
  rescan-IsKeyed (err e, m) h = h

  reload_master-IsKeyed :
      (m : ConfigManager)
      → IsKeyed m.namespace_configs
      → IsKeyed (reload_master_config fs m).1.namespace_configs
  unfolding reload_master_config
  reload_master-IsKeyed m h = ground arith

  -- A file event keeps every entry under its own full name, also one that fails.
  pub handle_file_event-IsKeyed :
      (event : ConfigFileEvent) (m : ConfigManager)
      → IsKeyed m.namespace_configs
      → IsKeyed (handle_file_event fs event m).1.namespace_configs
  unfolding handle_file_event reload_master_config remove_namespace_config
  handle_file_event-IsKeyed (created path) m h = reload-IsKeyed path m h
  handle_file_event-IsKeyed (modified path) m h =
      elim (Bool-cases (text_eq path m.config_file_path)) [
        | inl master ↦
            rw master (rescan-IsKeyed (reload_master_config fs m) (reload_master-IsKeyed m h))
        | inr other ↦ rw other (reload-IsKeyed path m h)
      ]
  handle_file_event-IsKeyed (deleted path) m h = removed-IsKeyed (remove_namespace_config path m) (
      Entries-retain (λ key e. e.full_name ≡ key) (λ name entry. not (text_eq entry.file_path path))
        m.namespace_configs h)
