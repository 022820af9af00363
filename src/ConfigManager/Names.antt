-- ===== src/ConfigManager/Names.antt =====
-- The full name of a loaded configuration, under the check that the network makes.
use segwire.Base.{◌≤◌, some, ok, ◌≡◌, arith, Bool-cases, inl, inr, length}
use segwire.Text.{Text}
use segwire.Utils.Names.{validate_namespace_name}
use segwire.Utils.Names.Validity.{IsName, validate_namespace_name_iff}
use segwire.Utils.Names.FullName.{validate-generate_full_namespace_name, length-full_name}
use segwire.Utils.Address.{UnicodeDigits}
use segwire.Config.{NamespaceConfig}
use segwire.Config.Validate.{Base64, validate_namespace_config}
use segwire.ConfigManager.{FileSystem, NamespaceConfigEntry, load_namespace_config}
use segwire.ConfigManager.Prefix.{full_namespace_name, matches_prefix}
use segwire.ConfigManager.Files.{load_namespace_config-IsLoaded}

full_namespace_name-valid :
    (prefix name : Text)
    → IsName 32 prefix
    → validate_namespace_name name ≡ ok tt
    → length (full_namespace_name prefix name) ≤ 63
    → validate_namespace_name (full_namespace_name prefix name) ≡ ok tt
unfolding full_namespace_name
full_namespace_name-valid prefix name p v bound = elim (Bool-cases (matches_prefix prefix name)) [
  | inl bears ↦ rw bears v
  | inr bare ↦ rw bare (
      (validate-generate_full_namespace_name prefix name p
          ((validate_namespace_name_iff name).0 v)).1
        (omega (arith, length-full_name prefix name, rw bare at bound)))
]

module _ ⦃u : UnicodeDigits⦄ ⦃b : Base64⦄ (fs : FileSystem) where
  name-valid :
      (c : NamespaceConfig)
      → validate_namespace_config c ≡ ok tt
      → validate_namespace_name c.namespace.name ≡ ok tt
  unfolding validate_namespace_config
  name-valid c h = ground arith

  -- With a prefix that the daemon accepts, the full name of every configuration that is loaded passes
  -- the check that the creation of a namespace makes, if it has at most 63 characters.
  pub load_namespace_config-full_name :
      (prefix path : Text) (entry : NamespaceConfigEntry)
      → IsName 32 prefix
      → load_namespace_config fs prefix path ≡ ok (some entry)
      → length entry.full_name ≤ 63
      → validate_namespace_name entry.full_name ≡ ok tt
  load_namespace_config-full_name prefix path entry p loaded bound =
      let l = (load_namespace_config-IsLoaded fs prefix path entry loaded).0 in
      rw l.derived (
        full_namespace_name-valid prefix entry.config.namespace.name p
          (name-valid entry.config l.valid) (rw l.derived at bound))
