-- ===== src/Utils.antt =====
-- crates/segwire-common/src/utils.rs: the checks of names, addresses and domains, the names of
-- namespaces, and the substitution of variables.
pub mod Names
pub mod Address
pub mod Domain
pub mod Substitute
pub mod Permissions
