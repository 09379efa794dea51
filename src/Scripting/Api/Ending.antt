-- ===== src/Scripting/Api/Ending.antt =====
-- The blocking calls end.
use indi_engine.Base.{
  ℕ, zero, suc, ◌+◌, ◌-◌, ◌*◌, ◌≤◌, ◌<◌, ◌≢◌, min, String, Bool, Option, none, some, List, [], ◌∷◌,
  length, arith, Bool-cases, inl, inr,
}
use indi_engine.Base.Dict.{lookup}
use indi_engine.Protocol.Constants.{PropertyState, property_states}
use indi_engine.Protocol.Properties.{Property}
use indi_engine.Protocol.Runtime.{Runtime}
use indi_engine.Scripting.Api.{Api, get_property}
use indi_engine.Scripting.Api.Wait.{
  waiting, Round, any_hit, wait_loop, sleep_loop, sleep, wait_for_state, wait_state, state_hit,
  has_state,
}

-- A wait of at most `slice` that is not interrupted lets the clock go on by that, or to the deadline.
abbrev pub Ticks : {py : Runtime} → ℕ → ℕ → List (Round py) → Type 0
Ticks slice deadline [] = Unit
Ticks slice deadline (r ∷ []) = Unit
Ticks slice deadline (r ∷ r' ∷ rounds) =
    (r.now + min slice (deadline - r.now) ≤ r'.now) × Ticks slice deadline (r' ∷ rounds)

abbrev pub first_clock : {py : Runtime} → List (Round py) → ℕ
first_clock [] = 0
first_clock (r ∷ rounds) = r.now

module _ {py : Runtime} {Params : Type 0} where
  wait_loop_ends :
      (hits : Property py → Bool) (checkpoint : Option Params) (deadline : ℕ) (matched : Bool)
      (rounds : List (Round py)) (k : ℕ)
      → Ticks 250 deadline rounds
      → deadline ≤ first_clock rounds + 250 * k
      → k < length rounds
      → wait_loop hits checkpoint deadline matched rounds ≢ waiting
  unfolding wait_loop
  wait_loop_ends hits checkpoint deadline matched [] k ticks late enough = absurd (omega arith)
  wait_loop_ends hits checkpoint deadline matched (r ∷ []) k ticks late enough = ground arith
  wait_loop_ends hits checkpoint deadline matched (r ∷ r' ∷ rounds) zero ticks late enough =
      ground arith
  wait_loop_ends hits checkpoint deadline matched (r ∷ r' ∷ rounds) (suc k) ticks late enough =
      let ih =
        wait_loop_ends hits checkpoint deadline (any_hit hits r.updates) (r' ∷ rounds) k ticks.1
          (omega arith) (omega arith) in
      ground (arith, ih)

  sleep_loop_ends :
      (checkpoint : Option Params) (deadline : ℕ) (rounds : List (Round py)) (k : ℕ)
      → Ticks 100 deadline rounds
      → deadline ≤ first_clock rounds + 100 * k
      → k < length rounds
      → sleep_loop checkpoint deadline rounds ≢ waiting
  unfolding sleep_loop
  sleep_loop_ends checkpoint deadline [] k ticks late enough = absurd (omega arith)
  sleep_loop_ends checkpoint deadline (r ∷ []) k ticks late enough = ground arith
  sleep_loop_ends checkpoint deadline (r ∷ r' ∷ rounds) zero ticks late enough = ground arith
  sleep_loop_ends checkpoint deadline (r ∷ r' ∷ rounds) (suc k) ticks late enough =
      let ih =
        sleep_loop_ends checkpoint deadline (r' ∷ rounds) k ticks.1 (omega arith) (omega arith) in
      ground (arith, ih)

  -- If each wait of its loop takes its time, a tenth of a second or up to the deadline, or is
  -- interrupted, `sleep` ends within its time divided by a tenth of a second, and one round more.
  pub sleep_ends :
      (timeout start k : ℕ) (rounds : List (Round py)) (a : Api py Params)
      → start ≤ first_clock rounds
      → k < length rounds
      → Ticks 100 (start + timeout) rounds
      → timeout ≤ 100 * k
      → sleep timeout start rounds a ≢ waiting
  unfolding sleep
  sleep_ends timeout start k rounds a later enough ticks long =
      sleep_loop_ends a.last_checkpoint (start + timeout) rounds k ticks (omega arith) enough

  state_ends :
      (cb : ℕ) (device name : String) (o : Option PropertyState) (timeout start k : ℕ)
      (early : List (Property py)) (rounds : List (Round py)) (a : Api py Params) (subs : List ℕ)
      → start ≤ first_clock rounds
      → k < length rounds
      → Ticks 250 (start + timeout) rounds
      → timeout ≤ 250 * k
      → (wait_state cb device name o (start + timeout) early rounds a subs).0 ≢ waiting
  state_ends cb device name none timeout start k early rounds a subs later enough ticks long =
      λ h. cc
  state_ends cb device name (some target) timeout start k early rounds a subs later enough ticks
        long =
      elim (Bool-cases (has_state target (get_property device name a))) [
        | inl now ↦ rw now (λ h. cc)
        | inr not_yet ↦ rw not_yet (
            wait_loop_ends (state_hit device name target) a.last_checkpoint (start + timeout)
              (any_hit (state_hit device name target) early) rounds k ticks (omega arith) enough)
      ]

  -- If each wait of its loop takes its time, a quarter of a second or up to the deadline, or is
  -- interrupted, `wait_for_state` ends within its timeout divided by a quarter of a second, and one round
  -- more.
  pub wait_for_state_ends :
      (cb : ℕ) (device name state : String) (timeout start k : ℕ) (early : List (Property py))
      (rounds : List (Round py)) (a : Api py Params) (subs : List ℕ)
      → start ≤ first_clock rounds
      → k < length rounds
      → Ticks 250 (start + timeout) rounds
      → timeout ≤ 250 * k
      → (wait_for_state cb device name state timeout start early rounds a subs).0 ≢ waiting
  unfolding wait_for_state
  wait_for_state_ends cb device name state timeout start k early rounds a subs later enough ticks
        long =
      elim (Bool-cases a.cancel) [
        | inl stop ↦ simp (stop) (λ h. cc)
        | inr goes ↦ simp (goes) (
            state_ends cb device name (lookup state property_states) timeout start k early rounds a
              subs later enough ticks long)
      ]
