-- ===== src/Examples.antt =====
-- The theorems at concrete packets, and runs of the code.
pub mod Data
pub mod Header
pub mod Input
pub mod Handoff
pub mod Steer
pub mod Flow
pub mod Encap
pub mod Settings
pub mod Enable
pub mod Rewrite
pub mod System
pub mod Loader
pub mod Cli
pub mod Registry
pub mod Sync
pub mod Daemon
