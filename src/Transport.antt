-- ===== src/Transport.antt =====
-- The transport layer of the INDI client, indi_engine/indi/protocol/transport.py.
pub mod Bytes
pub mod Splitter
pub mod Reader
mod Tests
