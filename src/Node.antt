-- ===== src/Node.antt =====
-- The node, node/: its messages, its socket, and its main loop.
pub mod Message
pub mod TcpSocket
pub mod Client
pub mod Main
