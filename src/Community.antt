-- ===== src/Community.antt =====
-- backend/services/community-service
pub mod Rows
pub mod Permissions
pub mod Database
pub mod Repository
pub mod Service
