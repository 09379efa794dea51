-- ===== src/IndiServer.antt =====
-- The managers of the INDI server in indi_engine/indi/server.py, behind one interface. Whether
-- `indiserver` is on the PATH, whether a process or a unit is alive and how `systemctl` ends are
-- inputs or part of the state.
pub mod Process
pub mod Systemd
pub mod Single
pub mod Drivers
pub mod Managers
mod Tests
use indi_engine.Base.{String, Bool, true, false, not, ◌&&◌, Option, List, ◌≡◌, ◌==◌, if◌then◌else◌}
use indi_engine.Base.Result.{Result}

-- What the socket server uses of a manager.
pub record Manager : Type 1 where
  pub State : Type 0
  pub start : State → Result (Unit {0}) × State
  pub stop : State → Result (Unit {0}) × State
  pub restart : Option (List String) → State → Result (Unit {0}) × State
  pub is_running : State → Bool
  pub drivers : State → List String
  pub set_drivers : List String → State → State

-- `detect_mode`: whether `systemctl` is on the PATH, and whether the unit is active.
unfoldable pub detect_mode : Bool → Bool → String
detect_mode has_systemctl is_active =
    if not has_systemctl then "process" else if is_active then "systemd" else "process"

-- What `main` makes of `server.mode`: true stands for the manager by systemd.
unfoldable pub is_systemd : String → Bool → Bool → Bool
unfolding detect_mode
is_systemd mode has_systemctl is_active =
    (if mode == "auto" then detect_mode has_systemctl is_active else mode) == "systemd"
