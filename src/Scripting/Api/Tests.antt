-- ===== src/Scripting/Api/Tests.antt =====
-- Runs of the blocking calls at fixed inputs.
use indi_engine.Base.{
  ℕ, ◌+◌, ◌≢◌, Bool, true, false, ◌||◌, ◌++◌, Option, none, some, List, [], ◌∷◌, ◌≡◌, refl, arith,
  ◌&&◌, if◌then◌else◌, ◌==◌,
}
use indi_engine.Base.Dict.{lookup}
use indi_engine.Protocol.Constants.{PropertyState, property_states}
use indi_engine.Protocol.Properties.{Value}
use indi_engine.Samples.{runtime, api, round_at, filter_ok}
use indi_engine.Scripting.Api.{get_property, checkpoint, ScriptValue, enable_blobs}
use indi_engine.Scripting.Api.Claims.{is_ok, enable_blobs-owner}
use indi_engine.Scripting.Runner.{get_blob_context_for_device}
use indi_engine.Scripting.Api.Ending.{Ticks, wait_for_state_ends}
use indi_engine.Scripting.Api.Hit.{IsCalm, updates_of, wait_for_state-answers}
use indi_engine.Scripting.Api.Pausing.{ResumesWith, wait-checkpoint}
use indi_engine.Scripting.Api.Wait.{
  Round, wait_for_state, wait_for_value, sleep, answered, waiting, any_hit, has_state, state_hit,
}

abbrev rounds : List (Round runtime)
rounds = round_at 0 [] ∷ round_at 250 (filter_ok ∷ []) ∷ []

abbrev later : List (Round runtime)
later = round_at 500 [] ∷ []

known : lookup "Ok" property_states ≡ some PropertyState.ok
unfolding lookup
known = refl

calm : IsCalm (0 + 1000) rounds
calm = (refl, refl, omega arith, (refl, refl, omega arith, tt))

hit :
    (has_state PropertyState.ok (get_property "Cam" "FILTER" api)
      || any_hit (state_hit "Cam" "FILTER" PropertyState.ok) ([] ++ updates_of rounds))
    ≡ true
unfolding get_property lookup any_hit state_hit
hit = refl

wait_for_state-answers_example :
    (wait_for_state 1 "Cam" "FILTER" "Ok" 1000 0 [] (rounds ++ later) api []).0 ≡ answered true
wait_for_state-answers_example =
    wait_for_state-answers 1 "Cam" "FILTER" "Ok" PropertyState.ok 1000 0 [] rounds later api [] refl
      known calm hit

ticks : Ticks 250 (0 + 500) (rounds ++ later)
ticks = (omega arith, (omega arith, tt))

wait_for_state_ends_example :
    (wait_for_state 1 "Cam" "FILTER" "Alert" 500 0 [] (rounds ++ later) api []).0 ≢ waiting
wait_for_state_ends_example =
    wait_for_state_ends 1 "Cam" "FILTER" "Alert" 500 0 2 [] (rounds ++ later) api [] (omega arith)
      (omega arith) ticks (omega arith)

abbrev float : Value → Option ℕ
float v = none

abbrev predicate : ScriptValue runtime → Option Bool
predicate v = some false

-- A wait that a pause interrupts
abbrev paused : List (Round runtime)
paused = record { now = 0; cancelled = false; paused = true; updates = [] } ∷ []

wait-checkpoint_example :
    let a' = (checkpoint 7 api).1 in
    (a'.last_checkpoint ≡ some 7)
    × ResumesWith 7 (wait_for_state 1 "Cam" "FILTER" "Ok" 500 0 [] paused a' []).0
    × ResumesWith 7 (wait_for_value float 1 "Cam" "FILTER" "NAME" predicate 500 0 [] paused a' []).0
    × ResumesWith 7 (sleep 500 0 paused a')
wait-checkpoint_example =
    wait-checkpoint float 1 "Cam" "FILTER" "Ok" "NAME" predicate 500 0 [] paused api [] 7 refl

enable_blobs-owner_example :
    let o = enable_blobs true "Cam" "Also" (some 9) api in
    get_blob_context_for_device "Cam" o.1.runner ≡ (
      if is_ok o.0 && "Cam" == "Cam"
      then some (record { run_id = api.run_id; capture_params = some 9 })
      else get_blob_context_for_device "Cam" api.runner)
enable_blobs-owner_example = enable_blobs-owner true "Cam" "Cam" "Also" (some 9) api refl
