-- ===== src/Scripting/Api/Hit.antt =====
-- What a blocking call answers.
use indi_engine.Base.{
  ℕ, ◌+◌, ◌<◌, String, Bool, true, false, ◌||◌, Option, some, List, [], ◌∷◌, ◌++◌, ◌≡◌, refl, arith,
  Bool-cases, inl, inr,
}
use indi_engine.Base.Dict.{lookup}
use indi_engine.Protocol.Constants.{PropertyState, property_states}
use indi_engine.Protocol.Properties.{Property}
use indi_engine.Protocol.Runtime.{Runtime}
use indi_engine.Scripting.Api.{Api, get_property}
use indi_engine.Scripting.Api.Wait.{
  answered, Round, any_hit, wait_loop, wait_for_state, state_hit, has_state,
}

module _ {py : Runtime} where
  -- Rounds that nothing interrupts before the deadline.
  abbrev pub IsCalm : ℕ → List (Round py) → Type 0
  IsCalm deadline [] = Unit
  IsCalm deadline (r ∷ rounds) =
      (r.cancelled ≡ false) × (r.paused ≡ false) × (r.now < deadline) × IsCalm deadline rounds

  -- The updates that come in the rounds, in order.
  abbrev pub updates_of : List (Round py) → List (Property py)
  updates_of [] = []
  updates_of (r ∷ rounds) = r.updates ++ updates_of rounds

  any_hit-append :
      (hits : Property py → Bool) (ps qs : List (Property py))
      → any_hit hits (ps ++ qs) ≡ (any_hit hits ps || any_hit hits qs)
  unfolding any_hit
  any_hit-append hits [] qs = refl
  any_hit-append hits (p ∷ ps) qs = ground (arith, any_hit-append hits ps qs)

module _ {py : Runtime} {Params : Type 0} where
  wait_loop_matched :
      (hits : Property py → Bool) (checkpoint : Option Params) (deadline : ℕ)
      (rounds : List (Round py))
      → wait_loop hits checkpoint deadline true rounds ≡ answered true
  unfolding wait_loop
  wait_loop_matched hits checkpoint deadline [] = refl
  wait_loop_matched hits checkpoint deadline (r ∷ rounds) = refl

  wait_loop-hit :
      (hits : Property py → Bool) (checkpoint : Option Params) (deadline : ℕ) (matched : Bool)
      (rounds later : List (Round py))
      → IsCalm deadline rounds
      → (matched || any_hit hits (updates_of rounds)) ≡ true
      → wait_loop hits checkpoint deadline matched (rounds ++ later) ≡ answered true
  unfolding wait_loop
  wait_loop-hit hits checkpoint deadline true rounds later calm hit =
      wait_loop_matched hits checkpoint deadline (rounds ++ later)
  wait_loop-hit hits checkpoint deadline false [] later calm hit = absurd (unfold any_hit in cc)
  wait_loop-hit hits checkpoint deadline false (r ∷ rounds) later calm hit =
      let ih =
        wait_loop-hit hits checkpoint deadline (any_hit hits r.updates) rounds later calm.3
          (ground (arith, hit, any_hit-append hits r.updates (updates_of rounds))) in
      ground (arith, ih, calm.0, calm.1, calm.2)

  wait_loop-answered :
      (hits : Property py → Bool) (checkpoint : Option Params) (deadline : ℕ) (matched : Bool)
      (rounds : List (Round py))
      → wait_loop hits checkpoint deadline matched rounds ≡ answered true
      → (matched || any_hit hits (updates_of rounds)) ≡ true
  unfolding wait_loop
  wait_loop-answered hits checkpoint deadline true rounds h = refl
  wait_loop-answered hits checkpoint deadline false [] h = absurd (cc h)
  wait_loop-answered hits checkpoint deadline false (r ∷ rounds) h = ground (
    arith,
    h,
    wait_loop-answered hits checkpoint deadline (any_hit hits r.updates) rounds,
    any_hit-append hits r.updates (updates_of rounds),
  )

  -- For a run that is not cancelled and a state that INDI has: `wait_for_state` answers True if the
  -- property has the state when the script subscribes, or an update to that state comes before the
  -- loop or in rounds that are not interrupted and start before the deadline, whatever comes later.
  pub wait_for_state-answers :
      (cb : ℕ) (device name state : String) (target : PropertyState) (timeout start : ℕ)
      (early : List (Property py)) (rounds later : List (Round py)) (a : Api py Params)
      (subs : List ℕ)
      → a.cancel ≡ false
      → lookup state property_states ≡ some target
      → IsCalm (start + timeout) rounds
      → (has_state target (get_property device name a)
          || any_hit (state_hit device name target) (early ++ updates_of rounds))
        ≡ true
      → (wait_for_state cb device name state timeout start early (rounds ++ later) a subs).0
        ≡ answered true
  unfolding wait_for_state
  wait_for_state-answers cb device name state target timeout start early rounds later a subs goes
        valid calm =
      let hits : Property py → Bool = state_hit device name target in
      simp (goes, valid, any_hit-append hits early (updates_of rounds))
        (elim (Bool-cases (has_state target (get_property device name a))) [
          | inl now ↦ rw now (λ hit. refl)
          | inr not_yet ↦ rw not_yet (
              wait_loop-hit hits a.last_checkpoint (start + timeout) (any_hit hits early) rounds
                later calm)
        ])

  -- With the same run and state it answers True in no other case.
  pub wait_for_state-answered :
      (cb : ℕ) (device name state : String) (target : PropertyState) (timeout start : ℕ)
      (early : List (Property py)) (rounds : List (Round py)) (a : Api py Params) (subs : List ℕ)
      → a.cancel ≡ false
      → lookup state property_states ≡ some target
      → (wait_for_state cb device name state timeout start early rounds a subs).0 ≡ answered true
      → (has_state target (get_property device name a)
          || any_hit (state_hit device name target) (early ++ updates_of rounds))
        ≡ true
  unfolding wait_for_state
  wait_for_state-answered cb device name state target timeout start early rounds a subs goes valid =
      let hits : Property py → Bool = state_hit device name target in
      simp (goes, valid, any_hit-append hits early (updates_of rounds))
        (elim (Bool-cases (has_state target (get_property device name a))) [
          | inl now ↦ rw now (λ h. refl)
          | inr not_yet ↦ rw not_yet (
              wait_loop-answered hits a.last_checkpoint (start + timeout) (any_hit hits early)
                rounds)
        ])
