-- ===== src/Scripting/Api/Pausing.antt =====
-- What a paused script resumes with, and what the blocking calls leave behind.
use indi_engine.Base.{
  ℕ, ◌+◌, String, Bool, true, false, not, ◌&&◌, Option, none, some, List, [], ◌∷◌, ◌≡◌, refl, ◌∙◌,
  arith,
}
use indi_engine.Base.Dict.{lookup}
use indi_engine.Base.Numbers.{◌==◌ as nat_eq}
use indi_engine.Protocol.Constants.{PropertyState, property_states}
use indi_engine.Protocol.Properties.{Value, Property}
use indi_engine.Protocol.Runtime.{Runtime}
use indi_engine.Scripting.Api.{Api, ScriptValue, get_property, get_value, checkpoint}
use indi_engine.Scripting.Api.Wait.{
  Waited, answered, slept, raised_cancelled, raised_paused, raised_value_error, waiting, Round,
  any_hit, wait_loop, sleep_loop, sleep, wait_for_state, wait_state, wait_for_value, wait_from,
  subscribe, unsubscribe, state_hit, value_hit, has_state, satisfies,
}

-- A callback that is not subscribed.
unfoldable pub is_new : ℕ → List ℕ → Bool
is_new cb [] = true
is_new cb (k ∷ subs) = not (nat_eq k cb) && is_new cb subs

unsubscribe-subscribe :
    (cb : ℕ) (subs : List ℕ) → is_new cb subs ≡ true → unsubscribe cb (subscribe cb subs) ≡ subs
unfolding unsubscribe is_new
unsubscribe-subscribe cb [] h = ground arith
unsubscribe-subscribe cb (k ∷ subs) h = ground (arith, h, unsubscribe-subscribe cb subs)

-- If the call ends with ScriptPausedError, the error carries these parameters.
abbrev pub ResumesWith : {Params : Type 0} → Params → Waited Params → Type 0
ResumesWith resume_params (raised_paused cp) = cp ≡ some resume_params
ResumesWith resume_params outcome = Unit

resumes :
    {Params : Type 0} (resume_params : Params) (outcome : Waited Params)
    → ((cp : Option Params) → outcome ≡ raised_paused cp → cp ≡ some resume_params)
    → ResumesWith resume_params outcome
resumes resume_params (answered b) h = tt
resumes resume_params slept h = tt
resumes resume_params raised_cancelled h = tt
resumes resume_params (raised_paused cp) h = h cp refl
resumes resume_params raised_value_error h = tt
resumes resume_params waiting h = tt

module _ {py : Runtime} {Params : Type 0} where
  wait_loop_paused :
      (hits : Property py → Bool) (checkpoint : Option Params) (deadline : ℕ) (matched : Bool)
      (rounds : List (Round py)) (cp : Option Params)
      → wait_loop hits checkpoint deadline matched rounds ≡ raised_paused cp
      → cp ≡ checkpoint
  unfolding wait_loop
  wait_loop_paused hits checkpoint deadline matched [] cp h = ground (arith, h)
  wait_loop_paused hits checkpoint deadline matched (r ∷ rounds) cp h =
      ground
        (arith, h, wait_loop_paused hits checkpoint deadline (any_hit hits r.updates) rounds cp)

  sleep_loop_paused :
      (checkpoint : Option Params) (deadline : ℕ) (rounds : List (Round py)) (cp : Option Params)
      → sleep_loop checkpoint deadline rounds ≡ raised_paused cp
      → cp ≡ checkpoint
  unfolding sleep_loop
  sleep_loop_paused checkpoint deadline [] cp h = absurd (cc h)
  sleep_loop_paused checkpoint deadline (r ∷ rounds) cp h =
      ground (arith, h, sleep_loop_paused checkpoint deadline rounds cp)

  wait_from_paused :
      (hits : Property py → Bool) (current : Bool) (deadline : ℕ) (early : List (Property py))
      (rounds : List (Round py)) (a : Api py Params) (cp : Option Params)
      → wait_from hits current deadline early rounds a ≡ raised_paused cp
      → cp ≡ a.last_checkpoint
  wait_from_paused hits true deadline early rounds a cp h = absurd (cc h)
  wait_from_paused hits false deadline early rounds a cp h =
      wait_loop_paused hits a.last_checkpoint deadline (any_hit hits early) rounds cp h

  wait_state_paused :
      (cb : ℕ) (device name : String) (target : Option PropertyState) (deadline : ℕ)
      (early : List (Property py)) (rounds : List (Round py)) (a : Api py Params) (subs : List ℕ)
      (cp : Option Params)
      → (wait_state cb device name target deadline early rounds a subs).0 ≡ raised_paused cp
      → cp ≡ a.last_checkpoint
  wait_state_paused cb device name none deadline early rounds a subs cp h = absurd (cc h)
  wait_state_paused cb device name (some target) deadline early rounds a subs cp h =
      wait_from_paused (state_hit device name target)
        (has_state target (get_property device name a)) deadline early rounds a cp h

  checkpoint_stored :
      (resume_params : Params) (a : Api py Params)
      → a.cancel ≡ false
      → (checkpoint resume_params a).1.last_checkpoint ≡ some resume_params
  unfolding checkpoint
  checkpoint_stored resume_params a goes = ground (arith, goes)

  -- In a run that is not cancelled, a checkpoint stores its parameters, and if a `wait_for_state`, a
  -- `wait_for_value` or a `sleep` that follows raises ScriptPausedError, the error carries them.
  pub wait-checkpoint :
      (float : Value → Option (py.Float)) (cb : ℕ) (device name state element : String)
      (predicate : ScriptValue py → Option Bool) (timeout start : ℕ) (early : List (Property py))
      (rounds : List (Round py)) (a : Api py Params) (subs : List ℕ) (resume_params : Params)
      → a.cancel ≡ false
      → let a' = (checkpoint resume_params a).1 in
        (a'.last_checkpoint ≡ some resume_params)
        × ResumesWith resume_params
            (wait_for_state cb device name state timeout start early rounds a' subs).0
        × ResumesWith resume_params
            (wait_for_value float cb device name element predicate timeout start early rounds a'
              subs).0
        × ResumesWith resume_params (sleep timeout start rounds a')
  unfolding wait_for_state wait_for_value sleep
  wait-checkpoint float cb device name state element predicate timeout start early rounds a subs
        resume_params goes =
      let a' = (checkpoint resume_params a).1 in
      let stored = checkpoint_stored resume_params a goes in
      let hits = value_hit float device name element predicate in
      let now = satisfies predicate (get_value float device name element a') in
      (
        stored,
        resumes resume_params _ (λ cp h. ground (
          arith,
          h,
          stored,
          wait_state_paused cb device name (lookup state property_states) (start + timeout) early
              rounds a' subs cp,
        )),
        resumes resume_params _ (λ cp h.
            ground
              (arith, h, stored, wait_from_paused hits now (start + timeout) early rounds a' cp)),
        resumes resume_params _
            (λ cp h. sleep_loop_paused a'.last_checkpoint (start + timeout) rounds cp h ∙ stored),
      )

  wait_state_subs :
      (cb : ℕ) (device name : String) (target : Option PropertyState) (deadline : ℕ)
      (early : List (Property py)) (rounds : List (Round py)) (a : Api py Params) (subs : List ℕ)
      → is_new cb subs ≡ true
      → (wait_state cb device name target deadline early rounds a subs).1 ≡ subs
  wait_state_subs cb device name none deadline early rounds a subs new = refl
  wait_state_subs cb device name (some target) deadline early rounds a subs new =
      unsubscribe-subscribe cb subs new

  -- A callback that is not yet subscribed is gone from the bus after `wait_for_state` and `wait_for_value`,
  -- however they end, and the other callbacks are as before.
  pub wait-subscribers :
      (float : Value → Option (py.Float)) (cb : ℕ) (device name state element : String)
      (predicate : ScriptValue py → Option Bool) (timeout start : ℕ) (early : List (Property py))
      (rounds : List (Round py)) (a : Api py Params) (subs : List ℕ)
      → is_new cb subs ≡ true
      → ((wait_for_state cb device name state timeout start early rounds a subs).1 ≡ subs)
        × ((wait_for_value float cb device name element predicate timeout start early rounds a
              subs).1
            ≡ subs)
  unfolding wait_for_state wait_for_value
  wait-subscribers float cb device name state element predicate timeout start early rounds a subs
        new =
      (
        ground (
          arith,
          wait_state_subs cb device name (lookup state property_states) (start + timeout) early
              rounds a subs new,
        ),
        ground (arith, unsubscribe-subscribe cb subs new),
      )
