-- ===== src/IndiServer/Systemd.antt =====
-- `SystemdServerManager` of indi_engine/indi/server.py. `answers` has how the next calls of
-- `systemctl` end, and `calls` the actions so far; `active` is what `is-active` says.
use indi_engine.Base.{
  String, Bool, true, false, not, Option, none, some, List, [], ◌∷◌, ◌++◌, if◌then◌else◌,
}
use indi_engine.Base.Names.{member}
use indi_engine.Base.Result.{Result, ok, err, runtime_error}
use indi_engine.IndiServer.Process.{save_list, remove_first}

pub record Systemd : Type 0 where
  pub drivers : List String
  pub saved : Option (List String)
  pub active : Bool
  pub answers : List Bool
  pub calls : List String

abbrev pub ends : List Bool → String → Systemd → Result (Unit {0}) × Systemd
ends [] action s = (err runtime_error, record s { calls = s.calls ++ action ∷ [] })
ends (true ∷ answers) action s =
    (ok tt, record s { calls = s.calls ++ action ∷ []; answers = answers })
ends (false ∷ answers) action s =
    (err runtime_error, record s { calls = s.calls ++ action ∷ []; answers = answers })

-- `_systemctl`
unfoldable pub systemctl : String → Systemd → Result (Unit {0}) × Systemd
systemctl action s = ends s.answers action s

-- `start`, `stop`
unfoldable pub start : Systemd → Result (Unit {0}) × Systemd
start s = systemctl "start" s

unfoldable pub stop : Systemd → Result (Unit {0}) × Systemd
stop s = systemctl "stop" s

abbrev pub with_drivers : Option (List String) → Systemd → Systemd
with_drivers none s = s
with_drivers (some ds) s = record s { drivers = ds }

-- `restart`
unfoldable pub restart : Option (List String) → Systemd → Result (Unit {0}) × Systemd
restart drivers s = systemctl "restart" (with_drivers drivers s)

-- `_save_drivers`
unfoldable pub save_drivers : Systemd → Systemd
save_drivers s = record s { saved = save_list s.drivers s.saved }

-- `add_driver`, `remove_driver`
unfoldable pub add_driver : String → Systemd → Result (Unit {0}) × Systemd
add_driver d s =
    if member d s.drivers
    then (ok tt, s)
    else systemctl "restart" (save_drivers (record s { drivers = s.drivers ++ d ∷ [] }))

unfoldable pub remove_driver : String → Systemd → Result (Unit {0}) × Systemd
remove_driver d s =
    if not (member d s.drivers)
    then (ok tt, s)
    else systemctl "restart" (save_drivers (record s { drivers = remove_first d s.drivers }))
