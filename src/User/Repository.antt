-- ===== src/User/Repository.antt =====
-- The statements of backend/services/user-service/repository.go.
pub mod Profiles
pub mod Conversations
pub mod Messages
