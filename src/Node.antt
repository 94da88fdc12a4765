-- ===== src/Node.antt =====
-- pkg/service/node/tcp_client.go, tcp_server.go and the payloads of pkg/models that they exchange:
-- the messages between nodes.
pub mod Stream
pub mod Payloads
pub mod Server
pub mod Client
pub mod FanIn
pub mod Membership
