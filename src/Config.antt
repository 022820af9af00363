-- ===== src/Config.antt =====
-- The configuration structures of crates/segwire-common/src/config.rs. A path is the text that names
-- it; a `u16` or `u32` is its value.
pub mod Validate
pub mod Laws
pub mod Substitute
use segwire.Base.{ℕ, Bool, true, false, Option, none, List, []}
use segwire.Text.{Text, lit}
use segwire.Map.{Map}

pub record LoggingConfig : Type 0 where
  pub level : Text
  pub with_timestamps : Bool
  pub with_thread_names : Bool
  pub with_file_line : Bool
  pub with_spans : Bool

pub record DaemonSettings : Type 0 where
  pub namespace_prefix : Text
  pub config_dir : Text
  pub cleanup_on_shutdown : Bool
  pub logging : LoggingConfig

pub record DBusSettings : Type 0 where
  pub service_name : Text
  pub object_path : Text

pub record DaemonConfig : Type 0 where
  pub daemon : DaemonSettings
  pub dbus : DBusSettings

pub record NamespaceSettings : Type 0 where
  pub name : Text
  pub description : Text

pub record VirtualInterface : Type 0 where
  pub name : Text
  pub interface_type : Text
  pub peer : Option Text
  pub addresses : List Text

pub record InterfaceConfig : Type 0 where
  pub move_interfaces : List Text
  pub virtual_interfaces : List VirtualInterface

pub record Route : Type 0 where
  pub destination : Text
  pub gateway : Text
  pub metric : Option ℕ

pub record RoutingConfig : Type 0 where
  pub default_gateway : Option Text
  pub routes : List Route

pub record DnsConfig : Type 0 where
  pub servers : List Text
  pub search : List Text

pub record WireguardPeerConfig : Type 0 where
  pub public_key : Text
  pub preshared_key : Option Text
  pub endpoint : Option Text
  pub allowed_ips : List Text
  pub persistent_keepalive : ℕ

pub record WireguardConfig : Type 0 where
  pub private_key : Text
  pub listen_port : ℕ
  pub fwmark : ℕ
  pub peers : List WireguardPeerConfig

pub record NamespaceConfig : Type 0 where
  pub namespace : NamespaceSettings
  pub interfaces : InterfaceConfig
  pub routing : RoutingConfig
  pub dns : DnsConfig
  pub wireguard : Option WireguardConfig
  pub environment : Map Text
