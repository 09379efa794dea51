-- ===== src/IndiServer/Process.antt =====
-- `ProcessServerManager` of indi_engine/indi/server.py. `live` counts the processes that run, and
-- `launched` has the drivers of each command so far. The driver list in the configuration file is
-- `saved`, if there is a file.
use indi_engine.Base.{
  ℕ, ◌+◌, ◌-◌, String, Bool, true, false, not, ◌&&◌, Option, none, some, List, [], ◌∷◌, ◌++◌,
  if◌then◌else◌, ◌==◌,
}
use indi_engine.Base.Names.{member}
use indi_engine.Base.Result.{Result, ok, err, file_not_found}

pub record Process : Type 0 where
  pub drivers : List String
  pub saved : Option (List String)
  pub on_path : Bool
  pub has_process : Bool
  pub alive : Bool
  pub live : ℕ
  pub launched : List (List String)

abbrev pub init : List String → Option (List String) → Bool → Process
init drivers saved on_path = record {
  drivers = drivers;
  saved = saved;
  on_path = on_path;
  has_process = false;
  alive = false;
  live = 0;
  launched = [];
}

-- `is_running`
unfoldable pub is_running : Process → Bool
is_running p = p.has_process && p.alive

-- `_launch`
unfoldable pub launch : Process → Result (Unit {0}) × Process
launch p = if not p.on_path then (err file_not_found, p) else (
  ok tt,
  record p {
    has_process = true;
    alive = true;
    live = p.live + 1;
    launched = p.launched ++ p.drivers ∷ [];
  },
)

-- `start`
unfoldable pub start : Process → Result (Unit {0}) × Process
start p = if is_running p then (ok tt, p) else launch p

-- `stop`; after `terminate`, or `kill`, and `wait` the process is gone.
unfoldable pub stop : Process → Process
stop p =
    if not (is_running p)
    then p
    else record p { has_process = false; alive = false; live = p.live - 1 }

abbrev pub with_drivers : Option (List String) → Process → Process
with_drivers none p = p
with_drivers (some ds) p = record p { drivers = ds }

-- `restart`
unfoldable pub restart : Option (List String) → Process → Result (Unit {0}) × Process
restart drivers p = launch (stop (with_drivers drivers p))

abbrev pub save_list : List String → Option (List String) → Option (List String)
save_list ds none = none
save_list ds (some old) = some ds

-- `_save_drivers`
unfoldable pub save_drivers : Process → Process
save_drivers p = record p { saved = save_list p.drivers p.saved }

-- `self._drivers.remove(driver)`: the first one
unfoldable pub remove_first : String → List String → List String
remove_first d [] = []
remove_first d (x ∷ xs) = let rest = remove_first d xs in if x == d then xs else x ∷ rest

-- `add_driver`, `remove_driver`
unfoldable pub add_driver : String → Process → Result (Unit {0}) × Process
add_driver d p =
    if member d p.drivers
    then (ok tt, p)
    else restart none (save_drivers (record p { drivers = p.drivers ++ d ∷ [] }))

unfoldable pub remove_driver : String → Process → Result (Unit {0}) × Process
remove_driver d p =
    if not (member d p.drivers)
    then (ok tt, p)
    else restart none (save_drivers (record p { drivers = remove_first d p.drivers }))

-- The process ends by itself.
unfoldable pub exit : Process → Process
exit p = if is_running p then record p { alive = false; live = p.live - 1 } else p
