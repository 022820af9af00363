-- ===== src/Tests.antt =====
-- Runs of the model on concrete data, and for each theorem of the list in Lib.antt one use of it on
-- such data.
pub mod Data
pub mod Names
pub mod Substitution
pub mod Manager
pub mod State
pub mod Configs
pub mod Entering
pub mod Import
pub mod Messages
pub mod Serving
pub mod Running
pub mod Watching
pub mod Checking
pub mod Machine
pub mod Backend
pub mod Devices
pub mod Commands
pub mod Routes
