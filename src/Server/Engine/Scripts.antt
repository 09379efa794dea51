-- ===== src/Server/Engine/Scripts.antt =====
-- `_handle_script_control` of indi_engine/server/socket_server.py, over the runner of scripts. It runs
-- in a thread of its own, here as one step.
use indi_engine.Base.{
  ℕ, String, Bool, true, Option, none, some, List, [], ◌∷◌, drop, length, if◌then◌else◌,
}
use indi_engine.Base.Dict.{Dict}
use indi_engine.Base.Result.{Result, ok, err}
use indi_engine.IndiServer.{Manager}
use indi_engine.Protocol.Runtime.{Runtime}
use indi_engine.Scripting.Registry
use indi_engine.Scripting.Registry.{Registry}
use indi_engine.Scripting.Runner
use indi_engine.Scripting.Runner.{Runner, RunHandle, RunStatus}
use indi_engine.Server.Engine.{
  Command, unavailable, missing_field, unknown_action, refused, Reply, World, Engine, says, system,
  send_to, reply_to,
}
use indi_engine.Server.Hub.{Hub, broadcast}

-- The reply, if there is one, and the runner
abbrev pub Outcome : Runtime → Type 0 → Type 0
Outcome py Params = Option (Reply py Params) × Runner Params

abbrev pub or_params {ℓ} : {A : Type ℓ} → A → Option A → A
or_params default none = default
or_params default (some a) = a

abbrev pub run_entries : Dict RunHandle → List (String × String)
run_entries [] = []
run_entries ((k, h) ∷ runs) = (h.run_id, h.name) ∷ run_entries runs

-- `list_runs` of the runner; every entry's status is "running".
unfoldable pub list_runs : {Params : Type 0} → Runner Params → List (String × String)
list_runs r = run_entries r.runs

-- The statuses that a runner has logged and another one, earlier, has not
abbrev pub news :
    {Params : Type 0} → Runner Params → Runner Params → List (String × String × RunStatus Params)
news before after = drop (length before.broadcasts) after.broadcasts

module _ {py : Runtime} {Params : Type 0} where
  abbrev pub missing : String → Runner Params → Outcome py Params
  missing field r = (some (Reply.script_error (missing_field field)), r)

  abbrev pub after_run : Result String × Runner Params → Outcome py Params
  after_run (err e, r) = (some (Reply.script_error (refused e)), r)
  after_run (ok run_id, r) = (none, r)

  abbrev pub run_script :
      World py Params → Command Params → Option String → Runner Params → Outcome py Params
  run_script w cmd none r = missing "name" r
  run_script w cmd (some name) r =
      after_run
        (Runner.run w.compiles w.new_run_id name (some (or_params w.no_params cmd.params)) r)

  abbrev pub cancelled : String → Bool × Runner Params → Outcome py Params
  cancelled run_id (found, r) = (some (Reply.script_cancel_ack run_id found), r)

  abbrev pub cancel_run : Option String → Runner Params → Outcome py Params
  cancel_run none r = missing "run_id" r
  cancel_run (some run_id) r = cancelled run_id (Runner.cancel run_id r)

  abbrev pub paused : String → Bool × Runner Params → Outcome py Params
  paused run_id (found, r) = (some (Reply.script_pause_ack run_id found), r)

  abbrev pub pause_run : Option Bool → Option String → Runner Params → Outcome py Params
  pause_run finish_current none r = missing "run_id" r
  pause_run finish_current (some run_id) r =
      paused run_id (Runner.pause run_id (or_params true finish_current) r)

  abbrev pub in_registry :
      Reply py Params → Result (Unit {0}) × Registry → Runner Params → Outcome py Params
  in_registry reply (err e, g) r =
      (some (Reply.script_error (refused e)), record r { registry = g })
  in_registry reply (ok u, g) r = (some reply, record r { registry = g })

  abbrev pub upload :
      World py Params → Option String → Option String → Runner Params → Outcome py Params
  upload w none content r = missing "name" r
  upload w (some name) none r = missing "content" r
  upload w (some name) (some content) r =
      in_registry (Reply.script_upload_ack name)
        (Registry.save w.utf8_size w.compiles name content r.registry) r

  abbrev pub delete_script : Option String → Runner Params → Outcome py Params
  delete_script none r = missing "name" r
  delete_script (some name) r =
      in_registry (Reply.script_delete_ack name) (Registry.delete name r.registry) r

  abbrev pub info_of : Result (Bool × String) → Runner Params → Outcome py Params
  info_of (err e) r = (some (Reply.script_error (refused e)), r)
  info_of (ok (builtin, source)) r = (some (Reply.script_info builtin source), r)

  abbrev pub script_info : Option String → Runner Params → Outcome py Params
  script_info none r = missing "name" r
  script_info (some name) r = info_of (Registry.describe name r.registry) r

  -- The `try` with its handlers
  unfoldable pub script_action :
      World py Params → Command Params → Runner Params → Outcome py Params
  script_action w cmd r =
      if says cmd.action "list"
      then (some (Reply.script_list (Registry.list w.scripts_in r.registry)), r)
      else if says cmd.action "run"
      then run_script w cmd cmd.name r
      else if says cmd.action "cancel"
      then cancel_run cmd.run_id r
      else if says cmd.action "pause"
      then pause_run cmd.finish_current cmd.run_id r
      else if says cmd.action "upload"
      then upload w cmd.name cmd.content r
      else if says cmd.action "delete"
      then delete_script cmd.name r
      else if says cmd.action "info"
      then script_info cmd.name r
      else if says cmd.action "list_runs"
      then (some (Reply.script_runs (list_runs r)), r)
      else (some (Reply.script_error (unknown_action cmd.action)), r)

  -- `self._broadcast` of the runner, which is `broadcast` of the server
  unfoldable pub broadcast_statuses :
      World py Params
      → List (String × String × RunStatus Params)
      → Hub (Reply py Params)
      → Hub (Reply py Params)
  broadcast_statuses w [] h = h
  broadcast_statuses w ((run_id, name, status) ∷ more) h =
      broadcast_statuses w more
        (broadcast w.accepts none (system (Reply.script_status run_id name status)) h)

  abbrev pub send_reply :
      World py Params → ℕ → Option (Reply py Params) → Hub (Reply py Params) → Hub (Reply py Params)
  send_reply w conn none h = h
  send_reply w conn (some reply) h = send_to w conn (system reply) h

module _ {py : Runtime} {M : Manager} {Params : Type 0} where
  abbrev pub with_runner :
      World py Params
      → Command Params
      → ℕ
      → Option (Runner Params)
      → Engine py M Params
      → Engine py M Params
  with_runner w cmd conn none e = reply_to w conn (system (Reply.script_error unavailable)) e
  with_runner w cmd conn (some r) e =
      let (reply, r') = script_action w cmd r in
      record e {
        runner = some r';
        hub = send_reply w conn reply (broadcast_statuses w (news r r') e.hub);
      }

  -- `_handle_script_control`
  unfoldable pub handle_script_control :
      World py Params → Command Params → ℕ → Engine py M Params → Engine py M Params
  handle_script_control w cmd conn e = with_runner w cmd conn e.runner e
