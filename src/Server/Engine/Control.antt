-- ===== src/Server/Engine/Control.antt =====
-- `_handle_server_control`, `_build_server_status` and `_broadcast_server_status` of
-- indi_engine/server/socket_server.py, over a manager of the INDI server. `_handle_server_control`
-- runs in a thread of its own, here as one step.
use indi_engine.Base.{ℕ, String, Bool, false, Option, none, some, List, [], if◌then◌else◌}
use indi_engine.Base.Result.{Result, ok, err}
use indi_engine.IndiServer.{Manager}
use indi_engine.Protocol.Client.{Client}
use indi_engine.Protocol.Client.Session.{disconnect_server}
use indi_engine.Protocol.Runtime.{Runtime}
use indi_engine.Server.Engine.{Command, Reply, World, Engine, says, system, reply_to}
use indi_engine.Server.Hub.{Packet, broadcast}

abbrev pub is_connected : {py : Runtime} → Option (Client py) → Bool
is_connected none = false
is_connected (some c) = c.transport.connected

abbrev pub map_client {ℓ} : {A : Type ℓ} → (A → A) → Option A → Option A
map_client f none = none
map_client f (some a) = some (f a)

abbrev pub manager_runs : (M : Manager) → Option (M.State) → Bool
manager_runs M none = false
manager_runs M (some m) = M.is_running m

abbrev pub manager_drivers : (M : Manager) → Option (M.State) → List String
manager_drivers M none = []
manager_drivers M (some m) = M.drivers m

abbrev pub set_given : (M : Manager) → Option (List String) → M.State → M.State
set_given M none m = m
set_given M (some drivers) m = M.set_drivers drivers m

module _ {py : Runtime} {M : Manager} {Params : Type 0} where
  -- `_build_server_status`
  unfoldable pub build_server_status : Engine py M Params → Packet (Reply py Params)
  build_server_status e = system (
      Reply.server_status (manager_runs M e.manager) (manager_drivers M e.manager)
        (is_connected e.client))

  -- `_send_server_status`, `_broadcast_server_status`
  unfoldable pub send_server_status : World py Params → ℕ → Engine py M Params → Engine py M Params
  send_server_status w conn e = reply_to w conn (build_server_status e) e

  unfoldable pub broadcast_server_status :
      World py Params → Option ℕ → Engine py M Params → Engine py M Params
  broadcast_server_status w exclude e = record e {
    hub = broadcast w.accepts exclude (build_server_status e) e.hub;
  }

  -- `if self._reconnect_callback`
  abbrev pub reconnect : World py Params → Engine py M Params → Engine py M Params
  reconnect w e =
      if e.can_reconnect then record e { client = map_client w.reconnect e.client } else e

  -- What follows an operation of the manager in the `try`
  abbrev pub then_reconnect :
      World py Params → Result (Unit {0}) × M.State → Engine py M Params → Engine py M Params
  then_reconnect w (ok u, m) e = reconnect w (record e { manager = some m })
  then_reconnect w (err raised, m) e = record e { manager = some m }

  abbrev pub disconnect : Engine py M Params → Engine py M Params
  disconnect e = record e { client = map_client disconnect_server e.client }

  -- The actions "start", "stop" and "restart"
  unfoldable pub start_server :
      World py Params → Option (List String) → M.State → Engine py M Params → Engine py M Params
  start_server w drivers m e =
      if M.is_running m then e else then_reconnect w (M.start (set_given M drivers m)) e

  unfoldable pub stop_server : M.State → Engine py M Params → Engine py M Params
  stop_server m e = record (disconnect e) { manager = some (M.stop m).1 }

  unfoldable pub restart_server :
      World py Params → Option (List String) → M.State → Engine py M Params → Engine py M Params
  restart_server w drivers m e = then_reconnect w (M.restart drivers m) (disconnect e)

  -- The status to the requester, and to the others
  abbrev pub report : World py Params → ℕ → Engine py M Params → Engine py M Params
  report w conn e = broadcast_server_status w (some conn) (send_server_status w conn e)

  abbrev control_action :
      World py Params → Command Params → ℕ → M.State → Engine py M Params → Engine py M Params
  control_action w cmd conn m e =
      if says cmd.action "status"
      then report w conn e
      else if says cmd.action "start"
      then report w conn (start_server w cmd.drivers m e)
      else if says cmd.action "stop"
      then report w conn (stop_server m e)
      else if says cmd.action "restart"
      then report w conn (restart_server w cmd.drivers m e)
      else send_server_status w conn e

  abbrev control :
      World py Params
      → Command Params
      → ℕ
      → Option (M.State)
      → Engine py M Params
      → Engine py M Params
  control w cmd conn none e = send_server_status w conn e
  control w cmd conn (some m) e = control_action w cmd conn m e

  -- `_handle_server_control`
  unfoldable pub handle_server_control :
      World py Params → Command Params → ℕ → Engine py M Params → Engine py M Params
  handle_server_control w cmd conn e = control w cmd conn e.manager e
