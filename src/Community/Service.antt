-- ===== src/Community/Service.antt =====
-- backend/services/community-service/service.go, one module for each group of handlers.
pub mod State
pub mod Wiring
pub mod Outcomes
pub mod Replies
pub mod Communities
pub mod Channels
pub mod Members
pub mod Messages
pub mod Handling
pub mod Exchange
pub mod Running
pub mod Authorship
pub mod Quiet
pub mod Listing
pub mod Posting
pub mod Authority
pub mod Untouched
pub mod Membership
