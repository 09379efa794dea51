-- ===== src/Scripting/Runner.antt =====
-- `ScriptRunner` of indi_engine/scripting/runner.py: the table of runs, their events, and the
-- devices whose BLOBs a run has claimed. A run's id (`uuid4`), the compiler and the way a script
-- ends are inputs; a broadcast is a status at the end of the log.
pub mod Lifecycle
use indi_engine.Base.{
  ℕ, String, Bool, true, false, not, Option, none, some, List, [], ◌∷◌, ◌++◌, if◌then◌else◌, ◌==◌,
}
use indi_engine.Base.Dict.{Dict, lookup, insert, remove, has_key}
use indi_engine.Base.Result.{Result, ok, err, Raised, syntax_error}
use indi_engine.Scripting.Registry
use indi_engine.Scripting.Registry.{Registry}

-- `_RunHandle` without the time
pub record RunHandle : Type 0 where
  pub run_id : String
  pub name : String
  pub cancel_event : Bool
  pub pause_immediate_event : Bool
  pub pause_deferred_event : Bool

pub record BlobContext (Params : Type 0) : Type 0 where
  pub run_id : String
  pub capture_params : Option Params

-- The statuses of `serialize_script_status`
pub data RunStatus (Params : Type 0) : Type 0 where
  running : String → RunStatus Params
  finished : RunStatus Params
  cancelled : RunStatus Params
  paused : Option Params → RunStatus Params
  failed : String → RunStatus Params

-- How a future ends: the script returns, or raises ScriptCancelledError, ScriptPausedError with the
-- parameters to resume with, or another exception.
pub data Outcome (Params : Type 0) : Type 0 where
  returned : Outcome Params
  raised_cancelled : Outcome Params
  raised_paused : Option Params → Outcome Params
  raised : String → Outcome Params

pub record Runner (Params : Type 0) : Type 0 where
  pub registry : Registry
  pub runs : Dict RunHandle
  pub blob_registry : Dict (BlobContext Params)
  pub submitted : List (String × Option Params)
  pub broadcasts : List (String × String × RunStatus Params)

abbrev pub new_handle : String → String → RunHandle
new_handle run_id name = record {
  run_id = run_id;
  name = name;
  cancel_event = false;
  pause_immediate_event = false;
  pause_deferred_event = false;
}

abbrev pub set_cancel : RunHandle → RunHandle
set_cancel h = record h { cancel_event = true }

abbrev pub set_pause : Bool → RunHandle → RunHandle
set_pause finish_current h =
    if finish_current
    then record h { pause_deferred_event = true }
    else record h { pause_immediate_event = true }

unfoldable pub cancel_all : Dict RunHandle → Dict RunHandle
cancel_all [] = []
cancel_all ((k, h) ∷ runs) = (k, set_cancel h) ∷ cancel_all runs

module _ {Params : Type 0} where
  abbrev pub announce : String → String → RunStatus Params → Runner Params → Runner Params
  announce run_id name status r = record r {
    broadcasts = r.broadcasts ++ (run_id, name, status) ∷ [];
  }

  abbrev pub start :
      String → String → Option Params → Bool → Runner Params → Result String × Runner Params
  start run_id name params compiled r = if not compiled then (err syntax_error, r) else (
    ok run_id,
    record (announce run_id name (RunStatus.running "Script started")
        (record r { runs = insert run_id (new_handle run_id name) r.runs })) {
          submitted = r.submitted ++ (run_id, params) ∷ [];
        },
  )

  abbrev pub start_loaded :
      (String → Bool)
      → String
      → String
      → Option Params
      → Result String
      → Runner Params
      → Result String × Runner Params
  start_loaded compiles run_id name params (err e) r = (err e, r)
  start_loaded compiles run_id name params (ok source) r =
      start run_id name params (compiles source) r

  -- `run`
  unfoldable pub run :
      (String → Bool)
      → String
      → String
      → Option Params
      → Runner Params
      → Result String × Runner Params
  run compiles run_id name params r =
      start_loaded compiles run_id name params (Registry.load name r.registry) r

  -- `log`, which a script calls
  unfoldable pub log : String → String → String → Runner Params → Runner Params
  log run_id name message r = announce run_id name (RunStatus.running message) r

  abbrev pub signal :
      String → (RunHandle → RunHandle) → Option RunHandle → Runner Params → Bool × Runner Params
  signal run_id event none r = (false, r)
  signal run_id event (some h) r = (true, record r { runs = insert run_id (event h) r.runs })

  -- `cancel`, `pause`
  unfoldable pub cancel : String → Runner Params → Bool × Runner Params
  cancel run_id r = signal run_id set_cancel (lookup run_id r.runs) r

  unfoldable pub pause : String → Bool → Runner Params → Bool × Runner Params
  pause run_id finish_current r = signal run_id (set_pause finish_current) (lookup run_id r.runs) r

  -- `register_blob_device`, `get_blob_context_for_device`
  unfoldable pub register_blob_device :
      String → String → Option Params → Runner Params → Runner Params
  register_blob_device device run_id capture_params r = record r {
    blob_registry =
        insert device (record { run_id = run_id; capture_params = capture_params }) r.blob_registry;
  }

  unfoldable pub get_blob_context_for_device : String → Runner Params → Option (BlobContext Params)
  get_blob_context_for_device device r = lookup device r.blob_registry

  -- The devices of a run leave the table.
  unfoldable pub drop_stale : String → Dict (BlobContext Params) → Dict (BlobContext Params)
  drop_stale run_id [] = []
  drop_stale run_id ((device, ctx) ∷ rest) =
      let kept = drop_stale run_id rest in
      if ctx.run_id == run_id then kept else (device, ctx) ∷ kept

  abbrev pub final_status : Outcome Params → RunStatus Params
  final_status Outcome.returned = RunStatus.finished
  final_status Outcome.raised_cancelled = RunStatus.cancelled
  final_status (Outcome.raised_paused resume) = RunStatus.paused resume
  final_status (Outcome.raised message) = RunStatus.failed message

  -- `_on_done`
  unfoldable pub on_done : Outcome Params → String → String → Runner Params → Runner Params
  on_done outcome run_id name r =
      announce run_id name (final_status outcome) (record r {
        runs = remove run_id r.runs;
        blob_registry = drop_stale run_id r.blob_registry;
      })

  -- `shutdown`
  unfoldable pub shutdown : Runner Params → Runner Params
  shutdown r = record r { runs = cancel_all r.runs }
