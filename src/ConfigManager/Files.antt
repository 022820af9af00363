-- ===== src/ConfigManager/Files.antt =====
-- What a loaded entry is: its configuration has passed every check, and its name is the one that the
-- prefix gives.
use segwire.Base.{true, some, ok, ◌≡◌, arith}
use segwire.Text.{Text}
use segwire.Utils.Address.{UnicodeDigits}
use segwire.Config.{NamespaceConfig}
use segwire.Config.Validate.{Base64, validate_namespace_config}
use segwire.ConfigManager.{
  FileSystem, NamespaceConfigEntry, namespace_config_from_file, load_namespace_config,
  should_manage,
}
use segwire.ConfigManager.Prefix.{full_namespace_name}

module _ ⦃u : UnicodeDigits⦄ ⦃b : Base64⦄ where
  pub record IsLoaded (prefix key : Text) (entry : NamespaceConfigEntry) : Type 0 where
    pub keyed : entry.full_name ≡ key
    pub derived : entry.full_name ≡ full_namespace_name prefix entry.config.namespace.name
    pub managed : should_manage prefix entry.config.namespace.name ≡ true
    pub valid : validate_namespace_config entry.config ≡ ok tt

  module _ (fs : FileSystem) where
    namespace_config_from_file-valid :
        (path : Text) (c : NamespaceConfig)
        → namespace_config_from_file fs path ≡ ok c
        → validate_namespace_config c ≡ ok tt
    unfolding namespace_config_from_file
    namespace_config_from_file-valid path c h = ground arith

    pub load_namespace_config-IsLoaded :
        (prefix path : Text) (entry : NamespaceConfigEntry)
        → load_namespace_config fs prefix path ≡ ok (some entry)
        → IsLoaded prefix entry.full_name entry × (entry.file_path ≡ path)
    unfolding load_namespace_config
    load_namespace_config-IsLoaded prefix path entry h =
        ground (arith, namespace_config_from_file-valid path entry.config)
