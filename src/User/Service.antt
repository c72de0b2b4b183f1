-- ===== src/User/Service.antt =====
-- The handlers of backend/services/user-service/service.go, with the caches of cache.go.
pub mod Caches
pub mod State
pub mod Profiles
pub mod Conversations
