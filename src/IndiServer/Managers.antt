-- ===== src/IndiServer/Managers.antt =====
-- The two managers behind the interface, and what the socket server may rely on.
use indi_engine.Base.{String, Bool, true, false, none, some, List, [], ◌∷◌, ◌≡◌, refl, arith}
use indi_engine.Base.Result.{ok}
use indi_engine.IndiServer.{Manager}
use indi_engine.IndiServer.Process
use indi_engine.IndiServer.Process.{Process, launch}
use indi_engine.IndiServer.Systemd
use indi_engine.IndiServer.Systemd.{Systemd, systemctl}

abbrev pub process_manager : Manager
process_manager = record {
  State = Process;
  start = Process.start;
  stop = λ p. (ok tt, Process.stop p);
  restart = Process.restart;
  is_running = Process.is_running;
  drivers = λ p. p.drivers;
  set_drivers = λ ds p. record p { drivers = ds };
}

abbrev pub systemd_manager : Manager
systemd_manager = record {
  State = Systemd;
  start = Systemd.start;
  stop = Systemd.stop;
  restart = Systemd.restart;
  is_running = λ s. s.active;
  drivers = λ s. s.drivers;
  set_drivers = λ ds s. record s { drivers = ds };
}

-- The driver list changes only where a caller gives another one.
pub record ManagerLaws (M : Manager) : Type 0 where
  pub drivers_set : (ds : List String) (s : M.State) → M.drivers (M.set_drivers ds s) ≡ ds
  pub drivers_start : (s : M.State) → M.drivers (M.start s).1 ≡ M.drivers s
  pub drivers_stop : (s : M.State) → M.drivers (M.stop s).1 ≡ M.drivers s
  pub drivers_restart : (s : M.State) → M.drivers (M.restart none s).1 ≡ M.drivers s
  pub drivers_given : (ds : List String) (s : M.State) → M.drivers (M.restart (some ds) s).1 ≡ ds

launch_keeps : (p : Process) → (launch p).1.drivers ≡ p.drivers
unfolding launch
launch_keeps p = ground arith

stop_keeps : (p : Process) → (Process.stop p).drivers ≡ p.drivers
unfolding Process.stop
stop_keeps p = ground arith

systemctl_keeps : (action : String) (s : Systemd) → (systemctl action s).1.drivers ≡ s.drivers
unfolding systemctl
systemctl_keeps action s = go s.answers
  where
    go : (answers : List Bool) → (Systemd.ends answers action s).1.drivers ≡ s.drivers
    go [] = refl
    go (true ∷ answers) = refl
    go (false ∷ answers) = refl

process_laws : ManagerLaws process_manager
unfolding Process.start Process.restart
process_laws = record {
  drivers_set = λ ds p. refl;
  drivers_start = λ p. ground (arith, launch_keeps p);
  drivers_stop = stop_keeps;
  drivers_restart = λ p. ground (arith, launch_keeps (Process.stop p), stop_keeps p);
  drivers_given = λ ds p.
      let p' = Process.with_drivers (some ds) p in
      ground (arith, launch_keeps (Process.stop p'), stop_keeps p');
}

systemd_laws : ManagerLaws systemd_manager
unfolding Systemd.start Systemd.stop Systemd.restart
systemd_laws = record {
  drivers_set = λ ds s. refl;
  drivers_start = systemctl_keeps "start";
  drivers_stop = systemctl_keeps "stop";
  drivers_restart = systemctl_keeps "restart";
  drivers_given = λ ds s. systemctl_keeps "restart" (record s { drivers = ds });
}

-- For both managers, also when an operation fails: the driver list is the one that a caller has set or
-- given to `restart`; `start`, `stop` and a `restart` without drivers leave it as it is.
pub managers-drivers : ManagerLaws process_manager × ManagerLaws systemd_manager
managers-drivers = (process_laws, systemd_laws)
