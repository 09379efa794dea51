-- ===== src/IndiServer/Drivers.antt =====
-- The driver list of the managers and its copy in the configuration file.
use indi_engine.IndiServer.Process.{Process}
