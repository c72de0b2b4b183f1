-- ===== src/User.antt =====
-- The user service: backend/services/user-service.
pub mod Rows
pub mod Repository
pub mod Service
pub mod Invariant
pub mod Wiring
pub mod Running
pub mod Pairs
pub mod Delivery
pub mod Sending
pub mod Blocking
pub mod Listing
