-- ===== src/System.antt =====
-- The services together: the gateway calls the user service and the community service by RPC, and
-- events go over NATS from them to the notify service and from there to the gateways.
pub mod Calls
pub mod Outcomes
pub mod Sending
pub mod Posting
pub mod Pushes
pub mod Delivery
pub mod Broadcast
