-- ===== src/Examples.antt =====
-- Runs of the caches, the services and the gateway on small states, with the theorems
-- applied to them.
pub mod Caches
pub mod Community
pub mod Handlers
pub mod Gateway
pub mod Notify
pub mod User
pub mod Presence
pub mod Auth
pub mod Server
pub mod System
pub mod File
pub mod Search
