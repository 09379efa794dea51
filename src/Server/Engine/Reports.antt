-- ===== src/Server/Engine/Reports.antt =====
-- What `_handle_server_control` reports, and what becomes of the drivers.
use indi_engine.Base.{
  ℕ, String, Bool, true, false, ◌&&◌, ◌||◌, Option, none, some, List, [], ◌∷◌, ◌++◌, ◌≡◌, refl,
  arith, if◌then◌else◌, ◌==◌, eq_iff,
}
use indi_engine.Base.Numbers.{◌==◌ as nat_eq}
use indi_engine.Base.Result.{Result, ok, err}
use indi_engine.IndiServer.{Manager}
use indi_engine.Protocol.Client.{Client}
use indi_engine.Protocol.Runtime.{Runtime}
use indi_engine.Server.Delivery.{is_target, passed_on}
use indi_engine.Server.Engine.{Command, Reply, World, Engine, says}
use indi_engine.Server.Engine.Control.{
  handle_server_control, send_server_status, broadcast_server_status, report, start_server,
  stop_server, restart_server, then_reconnect, disconnect, set_given, manager_drivers,
}
use indi_engine.Server.Hub.{Packet, subscriptions_of}
use indi_engine.IndiServer.Managers.{ManagerLaws}
use indi_engine.Server.Engine.Sent.{delivered}

abbrev pub is_known_action : {Params : Type 0} → Command Params → Bool
is_known_action cmd =
    says cmd.action "status"
    || says cmd.action "start"
    || says cmd.action "stop"
    || says cmd.action "restart"

says_one :
    (o : Option String) (a b : String) → (a == b) ≡ false → says o a ≡ true → says o b ≡ false
says_one none a b apart h = absurd (cc h)
says_one (some s) a b apart h = ground (arith, apart, h, eq_iff s a, eq_iff s b, eq_iff a b)

abbrev pub or_drivers : List String → Option (List String) → List String
or_drivers old none = old
or_drivers old (some ds) = ds

-- The drivers that a caller expects after a command
abbrev pub expected_drivers :
    {Params : Type 0} (M : Manager) → Command Params → M.State → List String
expected_drivers M cmd m =
    if says cmd.action "start"
    then (if M.is_running m then M.drivers m else or_drivers (M.drivers m) cmd.drivers)
    else if says cmd.action "restart"
    then or_drivers (M.drivers m) cmd.drivers
    else M.drivers m

set_given_drivers :
    {M : Manager} (laws : ManagerLaws M) (o : Option (List String)) (m : M.State)
    → M.drivers (set_given M o m) ≡ or_drivers (M.drivers m) o
set_given_drivers laws none m = refl
set_given_drivers laws (some ds) m = laws.drivers_set ds m

restart_given :
    {M : Manager} (laws : ManagerLaws M) (o : Option (List String)) (m : M.State)
    → M.drivers (M.restart o m).1 ≡ or_drivers (M.drivers m) o
restart_given laws none m = laws.drivers_restart m
restart_given laws (some ds) m = laws.drivers_given ds m

module _ {py : Runtime} {Params : Type 0} where
  -- A message about no device, which no engine has passed on
  abbrev message : Reply py Params → Packet (Reply py Params)
  message reply = record { device = none; provenance = none; body = reply }

  -- The status of a server: whether it runs, its drivers, and whether the INDI client has a connection
  abbrev pub status :
      (M : Manager) → Option (M.State) → Option (Client py) → Packet (Reply py Params)
  status M none none = message (Reply.server_status false [] false)
  status M none (some c) = message (Reply.server_status false [] c.transport.connected)
  status M (some m) none = message (Reply.server_status (M.is_running m) (M.drivers m) false)
  status M (some m) (some c) =
      message (Reply.server_status (M.is_running m) (M.drivers m) c.transport.connected)

module _ {py : Runtime} {M : Manager} {Params : Type 0} where
  -- What a message makes of those to a connection
  abbrev pub reported :
      World py Params
      → ℕ
      → ℕ
      → Engine py M Params
      → Packet (Reply py Params)
      → List (Packet (Reply py Params))
  reported w conn k e msg =
      (if nat_eq conn k then delivered w conn msg else [])
      ++ (if is_target (some conn) none k (subscriptions_of k e.hub.connections) && w.accepts k
          then passed_on e.hub.identity msg ∷ []
          else [])

  -- The engine after an action that the server knows, before the status is sent
  abbrev pub acted :
      World py Params → Command Params → M.State → Engine py M Params → Engine py M Params
  acted w cmd m e =
      if says cmd.action "status"
      then e
      else if says cmd.action "start"
      then start_server w cmd.drivers m e
      else if says cmd.action "stop"
      then stop_server m e
      else restart_server w cmd.drivers m e

  control_acts :
      (w : World py Params) (cmd : Command Params) (conn : ℕ) (m : M.State) (e : Engine py M Params)
      → e.manager ≡ some m
      → is_known_action cmd ≡ true
      → handle_server_control w cmd conn e ≡ report w conn (acted w cmd m e)
  unfolding handle_server_control
  control_acts w cmd conn m e managed known = ground (arith, managed, known)

  then_reconnect-drivers :
      (w : World py Params) (r : Result (Unit {0}) × M.State) (e : Engine py M Params)
      → manager_drivers M (then_reconnect w r e).manager ≡ M.drivers r.1
  then_reconnect-drivers w (ok u, m) e = ground arith
  then_reconnect-drivers w (err raised, m) e = refl

  restart_drivers :
      (w : World py Params) (drivers : Option (List String)) (m : M.State) (e : Engine py M Params)
      → manager_drivers M (restart_server w drivers m e).manager ≡ M.drivers (M.restart drivers m).1
  unfolding restart_server
  restart_drivers w drivers m e = then_reconnect-drivers w (M.restart drivers m) (disconnect e)

  control_manager :
      (w : World py Params) (cmd : Command Params) (conn : ℕ) (m : M.State) (e : Engine py M Params)
      → e.manager ≡ some m
      → is_known_action cmd ≡ true
      → (handle_server_control w cmd conn e).manager ≡ (acted w cmd m e).manager
  unfolding broadcast_server_status send_server_status
  control_manager w cmd conn m e managed known = rw (control_acts w cmd conn m e managed known) refl

  started_drivers :
      (laws : ManagerLaws M) (w : World py Params) (o : Option (List String)) (m : M.State)
      (e : Engine py M Params)
      → e.manager ≡ some m
      → manager_drivers M (start_server w o m e).manager
        ≡ (if M.is_running m then M.drivers m else or_drivers (M.drivers m) o)
  unfolding start_server
  started_drivers laws w o m e managed = ground (
    arith,
    managed,
    then_reconnect-drivers w (M.start (set_given M o m)) e,
    laws.drivers_start (set_given M o m),
    set_given_drivers laws o m,
  )

  -- With a manager that keeps the laws, after "status", "start", "stop" and "restart" its drivers are those
  -- of the command, if it has a list and is a "restart" or a "start" of a stopped server, and else those of
  -- before; also when the server does not start.
  pub handle_server_control-drivers :
      (laws : ManagerLaws M) (w : World py Params) (cmd : Command Params) (conn : ℕ) (m : M.State)
      (e : Engine py M Params)
      → e.manager ≡ some m
      → is_known_action cmd ≡ true
      → manager_drivers M (handle_server_control w cmd conn e).manager ≡ expected_drivers M cmd m
  unfolding stop_server
  handle_server_control-drivers laws w cmd conn m e managed known =
      let a = cmd.action in
      ground (
        arith,
        control_manager w cmd conn m e managed known,
        known,
        managed,
        started_drivers laws w cmd.drivers m e managed,
        restart_drivers w cmd.drivers m e,
        restart_given laws cmd.drivers m,
        laws.drivers_stop m,
        says_one a "status" "start" refl,
        says_one a "status" "restart" refl,
        says_one a "stop" "start" refl,
        says_one a "stop" "restart" refl,
      )
