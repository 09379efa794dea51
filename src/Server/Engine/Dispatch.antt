-- ===== src/Server/Engine/Dispatch.antt =====
-- `_handle_command`, and what `_handle_client` does with a line, of
-- indi_engine/server/socket_server.py. The reader of JSON is a parameter.
use indi_engine.Base.{ℕ, Bool, true, false, ◌||◌, List, [], ◌∷◌, if◌then◌else◌}
use indi_engine.Base.Result.{Result, ok, err}
use indi_engine.IndiServer.{Manager}
use indi_engine.Protocol.Runtime.{Runtime}
use indi_engine.Server.Engine.{Command, World, Engine, says}
use indi_engine.Server.Engine.Control.{handle_server_control}
use indi_engine.Server.Engine.Devices.{
  handle_device_control, handle_subscription, handle_capability_request, handle_engine_list_request,
}
use indi_engine.Server.Engine.Images.{handle_frame_control}
use indi_engine.Server.Engine.New.{handle_new}
use indi_engine.Server.Engine.Scripts.{handle_script_control}
use indi_engine.Server.Hub.{hang_up}

-- What `json.loads(line.decode("utf-8"))` gives: JSONDecodeError, UnicodeDecodeError, a value that is no
-- object, or an object.
pub data Line (Params : Type 0) : Type 0 where
  not_json not_utf8 no_object : Line Params
  object : Command Params → Line Params

abbrev is_raised : Result (Unit {0}) → Bool
is_raised (ok u) = false
is_raised (err e) = true

module _ {py : Runtime} {M : Manager} {Params : Type 0} where
  abbrev pub subscription :
      World py Params → Command Params → ℕ → Engine py M Params → Engine py M Params
  subscription w cmd conn e = record e { hub = handle_subscription w cmd conn e.client e.hub }

  -- `_handle_command`, with the exception that it raises, if it does
  unfoldable pub handle_command :
      World py Params
      → Command Params
      → ℕ
      → Engine py M Params
      → Result (Unit {0}) × Engine py M Params
  handle_command w cmd conn e =
      if says cmd.type "server_control"
      then (ok tt, handle_server_control w cmd conn e)
      else if says cmd.type "script_control"
      then (ok tt, handle_script_control w cmd conn e)
      else if says cmd.type "device_control"
      then (ok tt, handle_device_control w cmd conn e)
      else if says cmd.type "subscribe" || says cmd.type "unsubscribe"
      then (ok tt, subscription w cmd conn e)
      else if says cmd.type "capability_request"
      then (ok tt, handle_capability_request w conn e)
      else if says cmd.type "engine_list_request"
      then (ok tt, handle_engine_list_request w conn e)
      else if says cmd.type "frame_control"
      then (ok tt, handle_frame_control w cmd conn e)
      else if says cmd.type "new"
      then handle_new w cmd e
      else (ok tt, e)

  -- The `finally` of `_handle_client`
  abbrev drop_client : ℕ → Engine py M Params → Engine py M Params
  drop_client conn e = record e { hub = hang_up conn e.hub }

  -- The lines of one client, up to the first that ends its connection: `msg.get` of a value that is no
  -- object, `decode` and the IndiConnectionError of a `new` command raise what the loop does not catch.
  unfoldable pub handle_lines :
      World py Params → ℕ → List (Line Params) → Engine py M Params → Engine py M Params
  handle_lines w conn [] e = e
  handle_lines w conn (not_json ∷ more) e = handle_lines w conn more e
  handle_lines w conn (not_utf8 ∷ more) e = drop_client conn e
  handle_lines w conn (no_object ∷ more) e = drop_client conn e
  handle_lines w conn (object cmd ∷ more) e =
      let (r, e') = handle_command w cmd conn e in
      let rest = handle_lines w conn more e' in if is_raised r then drop_client conn e' else rest
