-- ===== src/GroupCache.antt =====
-- backend/pkg/groupcache/groupcache.go
pub mod Lru
pub mod Peers
pub mod Cache
