-- ===== src/Community/Repository.antt =====
-- backend/services/community-service/repository.go, one module for each group of tables.
pub mod Communities
pub mod Channels
pub mod Members
pub mod Roles
pub mod Messages
pub mod Invariant
pub mod Soundness
pub mod Queries
pub mod History
pub mod Scroll
