-- ===== src/Main/Attempts.antt =====
-- How long `_connect_indi` of indi_engine/main.py tries, and what it answers.
use indi_engine.Base.{
  ℕ, zero, suc, ◌-◌, Bool, true, false, Option, none, some, ◌≡◌, refl, ap, arith, if◌then◌else◌,
  Bool-cases, inl, inr, ◌∙◌,
}
use indi_engine.Base.Result.{Result, ok, err, Raised, indi_connection_error}
use indi_engine.Main.{Connected, after_attempt, connect_from, connect_indi}
use indi_engine.Protocol.Client.{Client}
use indi_engine.Protocol.Client.Session.{connect_server}
use indi_engine.Protocol.Runtime.{Runtime}
use indi_engine.Transport.Reader
use indi_engine.Transport.Reader.{Transport}

abbrev pub one_later : Option ℕ → Option ℕ
one_later none = none
one_later (some n) = some (suc n)

-- How many of the allowed attempts the socket refuses before it takes one
unfoldable pub first_taken : (ℕ → Bool × Bool) → ℕ → ℕ → Option ℕ
first_taken outcome attempt zero = none
first_taken outcome attempt (suc left) =
    let later = first_taken outcome (suc attempt) left in
    if (outcome attempt).0 then some 0 else one_later later

module _ {py : Runtime} where
  -- An attempt that the socket refuses raises, and leaves the client without a connection.
  refused_attempt :
      (c : Client py)
      → c.transport.connected ≡ false
      → ((connect_server false c).0 ≡ err indi_connection_error)
        × ((connect_server false c).1.transport.connected ≡ false)
  unfolding connect_server Reader.connect
  refused_attempt c down = simp (down) (refl, refl)

  accepted_attempt : (c : Client py) → (connect_server true c).0 ≡ ok tt
  unfolding connect_server Reader.connect
  accepted_attempt c = elim (Bool-cases c.transport.connected) [
    | inl up ↦ simp (up) refl
    | inr down ↦ simp (down) refl
  ]

  succeed :
      (left : ℕ) (takes : Bool) (r : Result (Unit {0}) × Client py)
      (again : Client py → Connected py)
      → r.0 ≡ ok tt
      → ((after_attempt left takes r again).answer ≡ true)
        × ((after_attempt left takes r again).slept ≡ 0)
  succeed left takes (ok u, c) again h = (refl, refl)
  succeed left takes (err e, c) again h = absurd (cc h)

  fail_last :
      (takes : Bool) (r : Result (Unit {0}) × Client py) (again : Client py → Connected py)
      (e : Raised)
      → r.0 ≡ err e
      → ((after_attempt 0 takes r again).answer ≡ false)
        × ((after_attempt 0 takes r again).slept ≡ 0)
  fail_last takes (ok u, c) again e h = absurd (cc h)
  fail_last takes (err e', c) again e h = (refl, refl)

  fail_more :
      (left : ℕ) (takes : Bool) (r : Result (Unit {0}) × Client py)
      (again : Client py → Connected py) (e : Raised)
      → r.0 ≡ err e
      → ((after_attempt (suc left) takes r again).answer ≡ (again r.1).answer)
        × ((after_attempt (suc left) takes r again).slept ≡ suc (again r.1).slept)
  fail_more left takes (ok u, c) again e h = absurd (cc h)
  fail_more left takes (err e', c) again e h = (refl, refl)

  -- What the caller is to get
  abbrev pub HasEnded : ℕ → Option ℕ → Connected py → Type 0
  HasEnded max_attempts none r = (r.answer ≡ false) × (r.slept ≡ max_attempts - 1)
  HasEnded max_attempts (some n) r = (r.answer ≡ true) × (r.slept ≡ n)

  ended_later :
      (left : ℕ) (takes : Bool) (o : Option ℕ) (r : Result (Unit {0}) × Client py)
      (again : Client py → Connected py)
      → r.0 ≡ err indi_connection_error
      → HasEnded (suc left) o (again r.1)
      → HasEnded (suc (suc left)) (one_later o) (after_attempt (suc left) takes r again)
  ended_later left takes none r again raised (answer, slept) =
      let (answers, sleeps) = fail_more left takes r again indi_connection_error raised in
      (answers ∙ answer, sleeps ∙ omega (arith, slept))
  ended_later left takes (some n) r again raised (answer, slept) =
      let (answers, sleeps) = fail_more left takes r again indi_connection_error raised in
      (answers ∙ answer, sleeps ∙ ap suc slept)

  connect_from-ends :
      (outcome : ℕ → Bool × Bool) (attempt left : ℕ) (c : Client py)
      → c.transport.connected ≡ false
      → HasEnded left (first_taken outcome attempt left) (connect_from outcome attempt left c)
  unfolding connect_from first_taken
  connect_from-ends outcome attempt zero c down = (refl, omega arith)
  connect_from-ends outcome attempt (suc zero) c down = elim (Bool-cases (outcome attempt).0) [
    | inl taken ↦ simp (taken) (
        succeed 0 (outcome attempt).1 (connect_server true c)
          (λ c'. connect_from outcome (suc attempt) 0 c') (accepted_attempt c))
    | inr refused ↦
        let again : Client py → Connected py = λ c'. connect_from outcome (suc attempt) 0 c' in
        let raised = (refused_attempt c down).0 in
        let (answers, sleeps) =
          fail_last (outcome attempt).1 (connect_server false c) again indi_connection_error
            raised in
        simp (refused) (answers, sleeps ∙ omega arith)
  ]
  connect_from-ends outcome attempt (suc (suc left)) c down =
      elim (Bool-cases (outcome attempt).0) [
        | inl taken ↦ simp (taken) (
            succeed (suc left) (outcome attempt).1 (connect_server true c)
              (λ c'. connect_from outcome (suc attempt) (suc left) c') (accepted_attempt c))
        | inr refused ↦
            let r = connect_server false c in
            let (raised, still) = refused_attempt c down in
            simp (refused) (
              ended_later left (outcome attempt).1 (first_taken outcome (suc attempt) (suc left)) r
                (λ c'. connect_from outcome (suc attempt) (suc left) c') raised
                (connect_from-ends outcome (suc attempt) (suc left) r.1 still))
      ]

  -- `_connect_indi` of a client without a connection ends: if the socket takes one of the allowed attempts, it
  -- answers True after as many seconds of sleep as attempts were refused before the first such; if it takes
  -- none, it answers False after a second of sleep between each two attempts.
  pub connect_indi-ends :
      (outcome : ℕ → Bool × Bool) (max_attempts : ℕ) (c : Client py)
      → c.transport.connected ≡ false
      → HasEnded max_attempts
          (first_taken outcome 1 max_attempts)
          (connect_indi outcome max_attempts c)
  unfolding connect_indi
  connect_indi-ends outcome max_attempts c down = connect_from-ends outcome 1 max_attempts c down
