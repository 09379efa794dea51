-- ===== src/Server.antt =====
-- The engine's side of its clients and peers: indi_engine/server/socket_server.py and serializer.py,
-- and indi_engine/network/peer.py and discovery.py.
pub mod Framing
pub mod Json
pub mod Serializer
pub mod Engine
pub mod Discovery
pub mod Delivery
pub mod Hub
pub mod Peer
pub mod Relay
mod Tests
