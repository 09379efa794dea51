-- ===== src/Scripting.antt =====
-- The scripts of the engine: indi_engine/scripting/.
pub mod Newlines
pub mod Registry
pub mod Sandbox
pub mod Api
pub mod Runner
mod Tests
