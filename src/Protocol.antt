-- ===== src/Protocol.antt =====
-- The INDI protocol layer, indi_engine/indi/protocol: constants, property models, parser, known
-- state and client.
pub mod Constants
pub mod Runtime
pub mod Text
pub mod Properties
pub mod Message
pub mod Parser
pub mod Known
pub mod Client
mod Tests
