-- ===== src/IndiServer/Single.antt =====
-- At most one INDI server runs under a process manager.
use indi_engine.Base.{
  ◌≤◌, Bool-cases, inl, inr, String, Bool, not, ◌&&◌, Option, none, some, List, [], ◌∷◌, ◌≡◌, refl,
  arith, ◌++◌, if◌then◌else◌,
}
use indi_engine.Base.Names.{member}
use indi_engine.IndiServer.Process.{
  Process, init, is_running, launch, start, stop, with_drivers, restart, save_drivers, add_driver,
  remove_driver, remove_first, exit,
}

-- One process runs if the manager says so, and none otherwise.
pub record IsSingle (p : Process) : Type 0 where
  pub counted : p.live ≡ (if p.has_process && p.alive then 1 else 0)

-- What can happen to a manager.
pub data Call : Type 0 where
  starts stops exits : Call
  restarts : Option (List String) → Call
  adds removes : String → Call

unfoldable pub call : Call → Process → Process
call starts p = (start p).1
call stops p = stop p
call exits p = exit p
call (restarts ds) p = (restart ds p).1
call (adds d) p = (add_driver d p).1
call (removes d) p = (remove_driver d p).1

launch-IsSingle : (p : Process) → IsSingle p → p.live ≡ 0 → IsSingle (launch p).1
unfolding launch
launch-IsSingle p h none_live = record { counted = ground (arith, h.counted) }

start-IsSingle : (p : Process) → IsSingle p → IsSingle (start p).1
unfolding start launch is_running
start-IsSingle p h = record { counted = ground (arith, h.counted) }

stop-IsSingle : (p : Process) → IsSingle p → IsSingle (stop p)
unfolding stop is_running
stop-IsSingle p h = record { counted = ground (arith, h.counted) }

stop_live : (p : Process) → IsSingle p → (stop p).live ≡ 0
unfolding stop is_running
stop_live p h = ground (arith, h.counted)

with_drivers-IsSingle :
    (ds : Option (List String)) (p : Process) → IsSingle p → IsSingle (with_drivers ds p)
with_drivers-IsSingle none p h = h
with_drivers-IsSingle (some ds) p h = record { counted = h.counted }

restart-IsSingle :
    (ds : Option (List String)) (p : Process) → IsSingle p → IsSingle (restart ds p).1
unfolding restart
restart-IsSingle ds p h =
    let h' = with_drivers-IsSingle ds p h in
    launch-IsSingle (stop (with_drivers ds p)) (stop-IsSingle (with_drivers ds p) h')
      (stop_live (with_drivers ds p) h')

exit-IsSingle : (p : Process) → IsSingle p → IsSingle (exit p)
unfolding exit is_running
exit-IsSingle p h = record { counted = ground (arith, h.counted) }

saved-IsSingle :
    (ds : List String) (p : Process)
    → IsSingle p
    → IsSingle (save_drivers (record p { drivers = ds }))
unfolding save_drivers
saved-IsSingle ds p h = record { counted = h.counted }

add_driver-IsSingle : (d : String) (p : Process) → IsSingle p → IsSingle (add_driver d p).1
unfolding add_driver
add_driver-IsSingle d p h = elim (Bool-cases (member d p.drivers)) [
  | inl old ↦ rw old h
  | inr new ↦ rw new (
      restart-IsSingle none (save_drivers (record p { drivers = p.drivers ++ d ∷ [] }))
        (saved-IsSingle (p.drivers ++ d ∷ []) p h))
]

remove_driver-IsSingle : (d : String) (p : Process) → IsSingle p → IsSingle (remove_driver d p).1
unfolding remove_driver
remove_driver-IsSingle d p h = elim (Bool-cases (not (member d p.drivers))) [
  | inl absent ↦ rw absent h
  | inr there ↦ rw there (
      restart-IsSingle none (save_drivers (record p { drivers = remove_first d p.drivers }))
        (saved-IsSingle (remove_first d p.drivers) p h))
]

call-IsSingle : (c : Call) (p : Process) → IsSingle p → IsSingle (call c p)
unfolding call
call-IsSingle starts p h = start-IsSingle p h
call-IsSingle stops p h = stop-IsSingle p h
call-IsSingle exits p h = exit-IsSingle p h
call-IsSingle (restarts ds) p h = restart-IsSingle ds p h
call-IsSingle (adds d) p h = add_driver-IsSingle d p h
call-IsSingle (removes d) p h = remove_driver-IsSingle d p h

unfoldable pub call_all : List Call → Process → Process
call_all [] p = p
call_all (c ∷ cs) p = call_all cs (call c p)

call_all-IsSingle : (cs : List Call) (p : Process) → IsSingle p → IsSingle (call_all cs p)
unfolding call_all
call_all-IsSingle [] p h = h
call_all-IsSingle (c ∷ cs) p h = call_all-IsSingle cs (call c p) (call-IsSingle c p h)

-- From a new manager, after any calls and any exits of the process, at most one INDI server runs, and
-- one runs exactly when `is_running` says so.
pub call_all-live :
    (cs : List Call) (drivers : List String) (saved : Option (List String)) (on_path : Bool)
    → let p = call_all cs (init drivers saved on_path) in
      (p.live ≤ 1) × (p.live ≡ (if is_running p then 1 else 0))
unfolding is_running
call_all-live cs drivers saved on_path =
    let h = call_all-IsSingle cs (init drivers saved on_path) (record { counted = refl }) in
    (ground (arith, h.counted), h.counted)
