-- ===== src/Server/Engine/Requests.antt =====
-- What the requests about scripts that `_handle_script_control` of
-- indi_engine/server/socket_server.py takes are to make of the engine.
use indi_engine.Base.{
  ℕ, String, Bool, true, false, Option, none, some, [], ◌∷◌, ◌++◌, map, ◌≡◌, ◌⊎◌, if◌then◌else◌,
  ◌==◌, ◌||◌,
}
use indi_engine.Base.Dict.{Dict, lookup, insert}
use indi_engine.Base.Result.{Result, ok, err, syntax_error}
use indi_engine.Protocol.Runtime.{Runtime}
use indi_engine.Scripting.Registry
use indi_engine.Scripting.Registry.{Registry}
use indi_engine.Scripting.Runner.{Runner, RunHandle, RunStatus, new_handle}
use indi_engine.Server.Engine.{
  Command, Reply, World, missing_field, unknown_action, refused, send_to,
}
use indi_engine.Server.Hub.{Hub, Packet, broadcast}

-- What a client may ask about scripts, and the requests that are refused: with no name, run id or content
-- where one is due, or with another action
pub data Request (Params : Type 0) : Type 0 where
  listing running_scripts : Request Params
  run : String → Params → Request Params
  cancel : String → Request Params
  pause : String → Bool → Request Params
  upload : String → String → Request Params
  delete info : String → Request Params
  nameless idless : Request Params
  empty : String → Request Params
  other : String → Request Params

abbrev pub is_action : String → Bool
is_action a =
    a == "list"
    || a == "run"
    || a == "cancel"
    || a == "pause"
    || a == "upload"
    || a == "delete"
    || a == "info"
    || a == "list_runs"

abbrev pub given {ℓ} : {A : Type ℓ} → A → Option A → A
given default none = default
given default (some a) = a

-- What a request makes: an answer, with the table of runs and the registry then, or the start of a run
pub data Effect (py : Runtime) (Params : Type 0) : Type 0 where
  replied : Reply py Params → Dict RunHandle → Registry → Effect py Params
  started : String → Params → Effect py Params

module _ {py : Runtime} {Params : Type 0} where
  -- A command asks for something.
  abbrev pub Asks : World py Params → Command Params → Request Params → Type 0
  Asks w cmd Request.listing = cmd.action ≡ some "list"
  Asks w cmd Request.running_scripts = cmd.action ≡ some "list_runs"
  Asks w cmd (Request.run name params) =
      (cmd.action ≡ some "run") × (cmd.name ≡ some name) × (given w.no_params cmd.params ≡ params)
  Asks w cmd (Request.cancel id) = (cmd.action ≡ some "cancel") × (cmd.run_id ≡ some id)
  Asks w cmd (Request.pause id finish) =
      (cmd.action ≡ some "pause")
      × (cmd.run_id ≡ some id)
      × (given true cmd.finish_current ≡ finish)
  Asks w cmd (Request.upload name content) =
      (cmd.action ≡ some "upload") × (cmd.name ≡ some name) × (cmd.content ≡ some content)
  Asks w cmd (Request.delete name) = (cmd.action ≡ some "delete") × (cmd.name ≡ some name)
  Asks w cmd (Request.info name) = (cmd.action ≡ some "info") × (cmd.name ≡ some name)
  Asks w cmd Request.nameless =
      ((cmd.action ≡ some "run")
        ⊎ (cmd.action ≡ some "upload")
        ⊎ (cmd.action ≡ some "delete")
        ⊎ (cmd.action ≡ some "info"))
      × (cmd.name ≡ none)
  Asks w cmd Request.idless =
      ((cmd.action ≡ some "cancel") ⊎ (cmd.action ≡ some "pause")) × (cmd.run_id ≡ none)
  Asks w cmd (Request.empty name) =
      (cmd.action ≡ some "upload") × (cmd.name ≡ some name) × (cmd.content ≡ none)
  Asks w cmd (Request.other action) = (cmd.action ≡ some action) × (is_action action ≡ false)

  abbrev pub quiet : Reply py Params → Runner Params → Effect py Params
  quiet reply r = replied reply r.runs r.registry

  abbrev pub began :
      World py Params → String → Params → Result String → Runner Params → Effect py Params
  began w name params (err e) r = quiet (Reply.script_error (refused e)) r
  began w name params (ok source) r =
      if w.compiles source
      then started name params
      else quiet (Reply.script_error (refused syntax_error)) r

  abbrev pub cancelled : String → Option RunHandle → Runner Params → Effect py Params
  cancelled id none r = quiet (Reply.script_cancel_ack id false) r
  cancelled id (some h) r =
      replied (Reply.script_cancel_ack id true)
        (insert id (record h { cancel_event = true }) r.runs) r.registry

  abbrev pub paused : String → Bool → Option RunHandle → Runner Params → Effect py Params
  paused id finish none r = quiet (Reply.script_pause_ack id false) r
  paused id true (some h) r =
      replied (Reply.script_pause_ack id true)
        (insert id (record h { pause_deferred_event = true }) r.runs) r.registry
  paused id false (some h) r =
      replied (Reply.script_pause_ack id true)
        (insert id (record h { pause_immediate_event = true }) r.runs) r.registry

  abbrev pub filed :
      Reply py Params → Result (Unit {0}) × Registry → Runner Params → Effect py Params
  filed reply (ok u, g) r = replied reply r.runs g
  filed reply (err e, g) r = replied (Reply.script_error (refused e)) r.runs g

  abbrev pub described : Result (Bool × String) → Runner Params → Effect py Params
  described (ok (builtin, source)) r = quiet (Reply.script_info builtin source) r
  described (err e) r = quiet (Reply.script_error (refused e)) r

  -- What a request is to make: a run starts if its source is there and compiles; a run in the table is
  -- cancelled or paused; and the registry does the rest.
  abbrev pub effect : World py Params → Request Params → Runner Params → Effect py Params
  effect w Request.listing r = quiet (Reply.script_list (Registry.list w.scripts_in r.registry)) r
  effect w Request.running_scripts r =
      quiet (Reply.script_runs (map (λ e. (e.1.run_id, e.1.name)) r.runs)) r
  effect w (Request.run name params) r = began w name params (Registry.load name r.registry) r
  effect w (Request.cancel id) r = cancelled id (lookup id r.runs) r
  effect w (Request.pause id finish) r = paused id finish (lookup id r.runs) r
  effect w (Request.upload name content) r =
      filed (Reply.script_upload_ack name)
        (Registry.save w.utf8_size w.compiles name content r.registry) r
  effect w (Request.delete name) r =
      filed (Reply.script_delete_ack name) (Registry.delete name r.registry) r
  effect w (Request.info name) r = described (Registry.describe name r.registry) r
  effect w Request.nameless r = quiet (Reply.script_error (missing_field "name")) r
  effect w Request.idless r = quiet (Reply.script_error (missing_field "run_id")) r
  effect w (Request.empty name) r = quiet (Reply.script_error (missing_field "content")) r
  effect w (Request.other action) r = quiet (Reply.script_error (unknown_action (some action))) r

  -- The runner then
  abbrev pub runner_after : World py Params → Effect py Params → Runner Params → Runner Params
  runner_after w (replied reply runs registry) r = record r { runs = runs; registry = registry }
  runner_after w (started name params) r = record r {
    runs = insert w.new_run_id (new_handle w.new_run_id name) r.runs;
    submitted = r.submitted ++ (w.new_run_id, some params) ∷ [];
    broadcasts = r.broadcasts ++ (w.new_run_id, name, RunStatus.running "Script started") ∷ [];
  }

  abbrev pub message : Reply py Params → Packet (Reply py Params)
  message reply = record { device = none; provenance = none; body = reply }

  -- The server's messages: an answer goes to the client alone that asks, the start of a run to all.
  abbrev pub hub_after :
      World py Params → ℕ → Effect py Params → Hub (Reply py Params) → Hub (Reply py Params)
  hub_after w conn (replied reply runs registry) h = send_to w conn (message reply) h
  hub_after w conn (started name params) h =
      broadcast w.accepts none
        (message (Reply.script_status w.new_run_id name (RunStatus.running "Script started"))) h
