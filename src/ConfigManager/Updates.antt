-- ===== src/ConfigManager/Updates.antt =====
-- Which entries a reload and a removal touch.
use segwire.Base.{
  Bool, not, some, [], ◌∷◌, ok, ◌≡◌, ◌≢◌, refl, arith, if◌then◌else◌, Bool-cases, inl, inr, any,
}
use segwire.Text.{Text, is_some}
use segwire.Text.Equality.{text_eq, text_eq_iff, text_eq_refl}
use segwire.Map.{Map, lookup, retain, lookup-insert}
use segwire.Map.Entries.{Entries}
use segwire.Utils.Address.{UnicodeDigits}
use segwire.Config.Validate.{Base64}
use segwire.ConfigManager.{
  FileSystem, NamespaceConfigEntry, ConfigManager, namespace_prefix, load_namespace_config,
  reload_namespace_config, remove_namespace_config, last_removed,
}
use segwire.ConfigManager.Files.{load_namespace_config-IsLoaded}

module _ ⦃u : UnicodeDigits⦄ ⦃b : Base64⦄ (fs : FileSystem) where
  -- A reload that loads an entry stores it under its full name, and leaves every other name alone.
  lookup-reload :
      (path name : Text) (m : ConfigManager) (entry : NamespaceConfigEntry)
      → load_namespace_config fs (namespace_prefix m) path ≡ ok (some entry)
      → lookup name (reload_namespace_config fs path m).1.namespace_configs
        ≡ (if text_eq entry.full_name name then some entry else lookup name m.namespace_configs)
  unfolding reload_namespace_config
  lookup-reload path name m entry h =
      rw h (lookup-insert entry.full_name name entry m.namespace_configs)

  -- A file whose namespace is renamed leaves its old entry behind: after the reload two names are
  -- configured by the one file, and the old name keeps what the file no longer says.
  pub reload_namespace_config-stale :
      (path : Text) (m : ConfigManager) (old new : NamespaceConfigEntry)
      → lookup old.full_name m.namespace_configs ≡ some old
      → old.file_path ≡ path
      → load_namespace_config fs (namespace_prefix m) path ≡ ok (some new)
      → new.full_name ≢ old.full_name
      → (lookup old.full_name (reload_namespace_config fs path m).1.namespace_configs ≡ some old)
        × (lookup new.full_name (reload_namespace_config fs path m).1.namespace_configs ≡ some new)
        × (new.file_path ≡ old.file_path)
  reload_namespace_config-stale path m old new stored from load differs = (
    rw (lookup-reload path old.full_name m new load)
        (ground (arith, text_eq_iff new.full_name old.full_name)),
    rw (lookup-reload path new.full_name m new load) (rw text_eq_refl),
    ground (arith, (load_namespace_config-IsLoaded fs (namespace_prefix m) path new load).1),
  )

retain_file :
    (path : Text) (configs : Map NamespaceConfigEntry)
    → Entries
        (λ name entry. entry.file_path ≢ path)
        (retain (λ name entry. not (text_eq entry.file_path path)) configs)
unfolding retain
retain_file path [] = tt
retain_file path ((name, entry) ∷ rest) = elim (Bool-cases (text_eq entry.file_path path)) [
  | inl same ↦ rw same (retain_file path rest)
  | inr other ↦ rw other (ground (arith, text_eq_iff entry.file_path path), retain_file path rest)
]

-- Whether some entry comes from the file.
abbrev pub from_file : Text → Map NamespaceConfigEntry → Bool
from_file path configs = any (λ e. text_eq e.1.file_path path) configs

last_removed-from_file :
    (path : Text) (configs : Map NamespaceConfigEntry)
    → is_some (last_removed path configs) ≡ from_file path configs
unfolding last_removed
last_removed-from_file path [] = refl
last_removed-from_file path ((name, entry) ∷ rest) =
    ground (arith, last_removed-from_file path rest)

-- When a file is deleted, no entry of it stays, and a name is reported exactly if there was one.
pub remove_namespace_config_complete :
    (path : Text) (m : ConfigManager)
    → Entries
        (λ name entry. entry.file_path ≢ path)
        (remove_namespace_config path m).1.namespace_configs
      × (is_some (remove_namespace_config path m).0 ≡ from_file path m.namespace_configs)
unfolding remove_namespace_config
remove_namespace_config_complete path m =
    (retain_file path m.namespace_configs, last_removed-from_file path m.namespace_configs)
