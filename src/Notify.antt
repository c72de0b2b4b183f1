-- ===== src/Notify.antt =====
-- backend/services/notify-service: read positions and unread counts.
pub mod Store
pub mod Subscriber
pub mod Service
pub mod Cursors
pub mod Totals
pub mod Progress
pub mod Preview
