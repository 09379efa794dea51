-- ===== src/Scripting/Api/Wait.antt =====
-- The blocking calls of indi_engine/scripting/api.py, `wait_for_state`, `wait_for_value` and `sleep`, and
-- `PropertyUpdateBus`, which they wait on. The clock counts milliseconds. A round of a loop has the
-- clock that it reads, what becomes of the run's events while it waits, and the updates that the bus
-- brings in that time.
use indi_engine.Base.{
  ℕ, ◌+◌, String, Bool, true, false, ◌&&◌, ◌||◌, Option, none, some, List, [], ◌∷◌, ◌++◌, leb,
  if◌then◌else◌, ◌==◌,
}
use indi_engine.Base.Dict.{lookup}
use indi_engine.Base.Numbers.{◌==◌ as nat_eq}
use indi_engine.Protocol.Constants.{PropertyState, property_states}
use indi_engine.Protocol.Properties.{Value, Property}
use indi_engine.Protocol.Runtime.{Runtime}
use indi_engine.Scripting.Api.{Api, ScriptValue, value_of, get_property, get_value}

-- `subscribe` and `unsubscribe` of the bus, by the number of the callback.
abbrev pub subscribe : ℕ → List ℕ → List ℕ
subscribe cb subs = subs ++ cb ∷ []

unfoldable pub unsubscribe : ℕ → List ℕ → List ℕ
unsubscribe cb [] = []
unsubscribe cb (k ∷ subs) = let rest = unsubscribe cb subs in if nat_eq k cb then subs else k ∷ rest

abbrev or_same {ℓ} : {S : Type ℓ} → Option S → S → S
or_same none s = s
or_same (some t) s = t

-- `notify`: the callbacks in order, on the state that they change; `none` is a callback that raises.
unfoldable pub notify {ℓ κ} :
    {P : Type ℓ} {S : Type κ} → (ℕ → P → S → Option S) → List ℕ → P → S → S
notify run [] p s = s
notify run (cb ∷ subs) p s = notify run subs p (or_same (run cb p s) s)

-- How a blocking call ends; `waiting` if the rounds run out first.
pub data Waited (Params : Type 0) : Type 0 where
  answered : Bool → Waited Params
  slept : Waited Params
  raised_cancelled : Waited Params
  raised_paused : Option Params → Waited Params
  raised_value_error : Waited Params
  waiting : Waited Params

pub record Round (py : Runtime) : Type 0 where
  pub now : ℕ
  pub cancelled : Bool
  pub paused : Bool
  pub updates : List (Property py)

abbrev pub same_state : PropertyState → PropertyState → Bool
same_state PropertyState.idle PropertyState.idle = true
same_state PropertyState.ok PropertyState.ok = true
same_state PropertyState.busy PropertyState.busy = true
same_state PropertyState.alert PropertyState.alert = true
same_state PropertyState.unknown PropertyState.unknown = true
same_state _ _ = false

abbrev pub is_true : Option Bool → Bool
is_true none = false
is_true (some b) = b

module _ {py : Runtime} where
  -- The callbacks `on_update`: whether an update sets `matched`.
  unfoldable pub state_hit : String → String → PropertyState → Property py → Bool
  state_hit device name target p =
      p.device_name == device && p.name == name && same_state p.state target

  abbrev pub satisfies : (ScriptValue py → Option Bool) → Option (ScriptValue py) → Bool
  satisfies predicate none = false
  satisfies predicate (some v) = is_true (predicate v)

  unfoldable pub value_hit :
      (Value → Option (py.Float))
      → String
      → String
      → String
      → (ScriptValue py → Option Bool)
      → Property py
      → Bool
  value_hit float device name element predicate p =
      p.device_name == device
      && p.name == name
      && satisfies predicate (value_of float element (some p))

  unfoldable pub any_hit : (Property py → Bool) → List (Property py) → Bool
  any_hit hits [] = false
  any_hit hits (p ∷ ps) = hits p || any_hit hits ps

  abbrev pub has_state : PropertyState → Option (Property py) → Bool
  has_state target none = false
  has_state target (some p) = same_state p.state target

-- The end of the `try`, and the `finally`
abbrev pub subscribed : {Params : Type 0} → ℕ → List ℕ → Waited Params → Waited Params × List ℕ
subscribed cb subs outcome = (outcome, unsubscribe cb (subscribe cb subs))

module _ {py : Runtime} {Params : Type 0} where
  -- `while not matched.is_set()`
  unfoldable pub wait_loop :
      (Property py → Bool) → Option Params → ℕ → Bool → List (Round py) → Waited Params
  wait_loop hits checkpoint deadline matched [] = if matched then answered true else waiting
  wait_loop hits checkpoint deadline matched (r ∷ rounds) =
      let rest = wait_loop hits checkpoint deadline (any_hit hits r.updates) rounds in
      if matched
      then answered true
      else if leb deadline r.now
      then answered false
      else if r.cancelled
      then raised_cancelled
      else if r.paused
      then raised_paused checkpoint
      else rest

  abbrev pub wait_from :
      (Property py → Bool)
      → Bool
      → ℕ
      → List (Property py)
      → List (Round py)
      → Api py Params
      → Waited Params
  wait_from hits current deadline early rounds a =
      if current
      then answered true
      else wait_loop hits a.last_checkpoint deadline (any_hit hits early) rounds

  abbrev pub wait_state :
      ℕ
      → String
      → String
      → Option PropertyState
      → ℕ
      → List (Property py)
      → List (Round py)
      → Api py Params
      → List ℕ
      → Waited Params × List ℕ
  wait_state cb device name none deadline early rounds a subs = (raised_value_error, subs)
  wait_state cb device name (some target) deadline early rounds a subs = subscribed cb subs (
      wait_from (state_hit device name target) (has_state target (get_property device name a))
        deadline early rounds a)

  -- `wait_for_state`, with the number of its callback, the clock at its start, and the updates that
  -- come between its subscription and its loop.
  unfoldable pub wait_for_state :
      ℕ
      → String
      → String
      → String
      → ℕ
      → ℕ
      → List (Property py)
      → List (Round py)
      → Api py Params
      → List ℕ
      → Waited Params × List ℕ
  wait_for_state cb device name state timeout start early rounds a subs =
      if a.cancel
      then (raised_cancelled, subs)
      else wait_state cb device name (lookup state property_states) (start + timeout) early rounds a
          subs

  -- `wait_for_value`
  unfoldable pub wait_for_value :
      (Value → Option (py.Float))
      → ℕ
      → String
      → String
      → String
      → (ScriptValue py → Option Bool)
      → ℕ
      → ℕ
      → List (Property py)
      → List (Round py)
      → Api py Params
      → List ℕ
      → Waited Params × List ℕ
  wait_for_value float cb device name element predicate timeout start early rounds a subs =
      if a.cancel
      then (raised_cancelled, subs)
      else subscribed cb subs (
          wait_from (value_hit float device name element predicate)
            (satisfies predicate (get_value float device name element a)) (start + timeout) early
            rounds a)

  -- The loop of `TimeScriptApi.sleep`, and `sleep`
  unfoldable pub sleep_loop : Option Params → ℕ → List (Round py) → Waited Params
  sleep_loop checkpoint deadline [] = waiting
  sleep_loop checkpoint deadline (r ∷ rounds) =
      let rest = sleep_loop checkpoint deadline rounds in
      if leb deadline r.now
      then slept
      else if r.cancelled
      then raised_cancelled
      else if r.paused
      then raised_paused checkpoint
      else rest

  unfoldable pub sleep : ℕ → ℕ → List (Round py) → Api py Params → Waited Params
  sleep milliseconds start rounds a = sleep_loop a.last_checkpoint (start + milliseconds) rounds
