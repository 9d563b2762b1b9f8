-- ===== src/Router.antt =====
-- The router, router/.
pub mod Message
pub mod SignalingQueue
pub mod Session
pub mod Sessions
pub mod TcpServer
pub mod State
pub mod Workers
pub mod Listener
pub mod System
pub mod Start
pub mod Main
pub mod Locks
