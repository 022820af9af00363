-- ===== src/ConfigManager/Invariant.antt =====
-- The invariant of the configuration manager, under each operation.
use segwire.Base.{
  true, Result, Option, none, some, List, [], ◌∷◌, ok, err, ◌≡◌, refl, ◌&&◌, is_ok, map_err,
  >>=-eq-ok, Bool-cases, inl, inr,
}
use segwire.Text.{Text}
use segwire.Error.{SegwireResult}
use segwire.Map.{Map}
use segwire.Map.Entries.{Entries, Entries-insert, Entries-retain}
use segwire.Utils.Address.{UnicodeDigits}
use segwire.Config.Validate.{Base64}
use segwire.ConfigManager.{
  FileSystem, DirEntry, NamespaceConfigEntry, ConfigManager, namespace_prefix,
  load_namespace_config, store_scanned, scan_directory, add_loaded, scan_entry, scan_entries,
  scan_namespace_configs, reload_namespace_config, remove_namespace_config, store_loaded, is_toml,
  config_directory,
}
use segwire.ConfigManager.Files.{IsLoaded, load_namespace_config-IsLoaded}

module _ ⦃u : UnicodeDigits⦄ ⦃b : Base64⦄ where
  -- Every stored entry stands under its full name, which the present prefix gives, and has passed
  -- every check.
  abbrev pub IsConsistent : ConfigManager → Type 0
  IsConsistent m = Entries (IsLoaded (namespace_prefix m)) m.namespace_configs

  module _ (fs : FileSystem) where
    add_loaded-IsLoaded :
        (prefix : Text) (r : SegwireResult (Option NamespaceConfigEntry))
        (found : List Text × Map NamespaceConfigEntry)
        → ((entry : NamespaceConfigEntry)
            → r ≡ ok (some entry)
            → IsLoaded prefix entry.full_name entry)
        → Entries (IsLoaded prefix) found.1
        → Entries (IsLoaded prefix) (add_loaded fs r found).1
    add_loaded-IsLoaded prefix (ok (some entry)) (loaded, configs) new h =
        Entries-insert (IsLoaded prefix) entry.full_name entry configs (new entry refl) h
    add_loaded-IsLoaded prefix (ok none) found new h = h
    add_loaded-IsLoaded prefix (err e) found new h = h

    scan_entry-IsLoaded :
        (prefix : Text) (entry : DirEntry) (found : List Text × Map NamespaceConfigEntry)
        → Entries (IsLoaded prefix) found.1
        → Entries (IsLoaded prefix) (scan_entry fs prefix entry found).1
    unfolding scan_entry
    scan_entry-IsLoaded prefix entry found h = elim (Bool-cases (entry.is_file && is_toml entry)) [
      | inl loads ↦ rw loads (
          add_loaded-IsLoaded prefix (load_namespace_config fs prefix entry.path) found
            (λ e l. (load_namespace_config-IsLoaded fs prefix entry.path e l).0) h)
      | inr skips ↦ rw skips h
    ]

    scan_entries-IsLoaded :
        (prefix : Text) (entries : List (Result Text DirEntry))
        (found result : List Text × Map NamespaceConfigEntry)
        → Entries (IsLoaded prefix) found.1
        → scan_entries fs prefix entries found ≡ ok result
        → Entries (IsLoaded prefix) result.1
    unfolding scan_entries
    scan_entries-IsLoaded prefix [] found result h e =
        let same : found ≡ result = cc in rw (← same) h
    scan_entries-IsLoaded prefix (err x ∷ rest) found result h e = absurd (cc)
    scan_entries-IsLoaded prefix (ok entry ∷ rest) found result h e =
        scan_entries-IsLoaded prefix rest (scan_entry fs prefix entry found) result
          (scan_entry-IsLoaded prefix entry found h) e

    scan_directory-IsLoaded :
        (prefix dir : Text) (result : List Text × Map NamespaceConfigEntry)
        → scan_directory fs prefix dir ≡ ok result
        → Entries (IsLoaded prefix) result.1
    unfolding scan_directory
    scan_directory-IsLoaded prefix dir result h =
        let (entries, _, h') =
          >>=-eq-ok (map_err _ (fs.read_dir dir)) (λ l. scan_entries fs prefix l ([], [])) h in
        scan_entries-IsLoaded prefix entries ([], []) result tt h'

    -- Whatever was stored before, a scan that succeeds stores consistent entries alone.
    pub scan_namespace_configs-IsConsistent :
        (m : ConfigManager)
        → is_ok (scan_namespace_configs fs m).0 ≡ true
        → IsConsistent (scan_namespace_configs fs m).1
    unfolding scan_namespace_configs
    scan_namespace_configs-IsConsistent m =
        from (scan_directory fs (namespace_prefix m) (config_directory m)) refl
      where
        from :
            (r : SegwireResult (List Text × Map NamespaceConfigEntry))
            → scan_directory fs (namespace_prefix m) (config_directory m) ≡ r
            → is_ok (store_scanned fs r m).0 ≡ true
            → IsConsistent (store_scanned fs r m).1
        from (ok result) e h =
            scan_directory-IsLoaded (namespace_prefix m) (config_directory m) result e
        from (err x) e h = absurd (cc)

    -- A reload keeps the invariant, whether the file loads, is skipped or is refused.
    pub reload_namespace_config-IsConsistent :
        (path : Text) (m : ConfigManager)
        → IsConsistent m
        → IsConsistent (reload_namespace_config fs path m).1
    unfolding reload_namespace_config
    reload_namespace_config-IsConsistent path m h =
        from (load_namespace_config fs (namespace_prefix m) path) refl
      where
        from :
            (r : SegwireResult (Option NamespaceConfigEntry))
            → load_namespace_config fs (namespace_prefix m) path ≡ r
            → IsConsistent (store_loaded fs r m).1
        from (ok (some entry)) e =
            Entries-insert (IsLoaded (namespace_prefix m)) entry.full_name entry m.namespace_configs
              (load_namespace_config-IsLoaded fs (namespace_prefix m) path entry e).0 h
        from (ok none) e = h
        from (err x) e = h

  pub remove_namespace_config-IsConsistent :
      (path : Text) (m : ConfigManager)
      → IsConsistent m
      → IsConsistent (remove_namespace_config path m).1
  unfolding remove_namespace_config
  remove_namespace_config-IsConsistent path m h =
      Entries-retain (IsLoaded (namespace_prefix m)) _ m.namespace_configs h
