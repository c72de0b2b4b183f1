-- ===== src/Gateway.antt =====
-- backend/services/ws-gateway: the frames on a WebSocket and the connections of one gateway.
pub mod Frames
pub mod Connections
pub mod Routing
pub mod Push
pub mod Registry
pub mod Server
