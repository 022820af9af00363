-- ===== src/ConfigManager/Start.antt =====
-- The making of a `ConfigManager` of crates/segwire-daemon/src/config.rs, and its queries.
use segwire.Base.{ℕ, Option, [], ok, ◌>>=◌, length}
use segwire.Text.{Text}
use segwire.Map.{lookup}
use segwire.Error.{SegwireResult}
use segwire.Config.{DaemonConfig}
use segwire.ConfigManager.{FileSystem, NamespaceConfigEntry, ConfigManager, load_master_config}

abbrev pub from_config : DaemonConfig → Text → ConfigManager
from_config c path = record { daemon_config = c; config_file_path = path; namespace_configs = [] }

-- ConfigManager::new
unfoldable pub new_config_manager : FileSystem → Text → SegwireResult ConfigManager
new_config_manager fs path = do c ← load_master_config fs path; ok (from_config c path)

abbrev get_namespace_config : Text → ConfigManager → Option NamespaceConfigEntry
get_namespace_config name m = lookup name m.namespace_configs

record ConfigStats : Type 0 where
  pub total_configs : ℕ

abbrev get_config_stats : ConfigManager → ConfigStats
get_config_stats m = record { total_configs = length m.namespace_configs }
