-- ===== src/Transport/Reader/Backoff.antt =====
-- The delays between attempts to reconnect, and what the reader keeps across a lost connection.
use native.Mathlib.Nat.{pow-suc}
use indi_engine.Base.{
  ℕ, zero, suc, ◌*◌, ◌≤◌, min, Bool, false, not, ◌||◌, List, [], ◌∷◌, ◌++◌, ◌≡◌, arith, Bool-cases,
  inl, inr, ◌∙◌,
}
use Prim.Native.Nat.{◌^◌}
use native.Mathlib.Decide.{dec_le}
use indi_engine.Transport.Reader.{
  Transport, on_recv, Recv, received, closed, timed_out, socket_error, unexpected, receive,
  reader_round, reader_loop, handle_disconnection, reconnect_min_delay, reconnect_max_delay,
  reconnect_backoff_factor,
}

abbrev AllPaced : List ℕ → Type 0
AllPaced [] = Unit
AllPaced (d ∷ ds) = (reconnect_min_delay ≤ d) × (d ≤ reconnect_max_delay) × AllPaced ds

-- Every delay, slept or to come, is between the least and the greatest.
pub record IsPaced (t : Transport) : Type 0 where
  pub least : reconnect_min_delay ≤ t.reconnect_delay
  pub greatest : t.reconnect_delay ≤ reconnect_max_delay
  pub history : AllPaced t.slept

AllPaced-append : (ds : List ℕ) (d : ℕ) → AllPaced ds → 2 ≤ d → d ≤ 60 → AllPaced (ds ++ d ∷ [])
AllPaced-append [] d h l g = (l, g, tt)
AllPaced-append (e ∷ ds) d h l g = (h.0, h.1, AllPaced-append ds d h.2 l g)

handle_disconnection-IsPaced :
    (succeeds : Bool) (t : Transport) → IsPaced t → IsPaced (handle_disconnection succeeds t)
unfolding handle_disconnection
handle_disconnection-IsPaced succeeds t h =
    let longer = AllPaced-append t.slept t.reconnect_delay h.history h.least h.greatest in
    record { least = ground arith; greatest = ground arith; history = ground arith }

on_recv-IsPaced :
    (r : Recv) (succeeds : Bool) (t : Transport) → IsPaced t → IsPaced (on_recv r succeeds t)
unfolding receive
on_recv-IsPaced (received []) succeeds t h =
    let lost =
      handle_disconnection-IsPaced succeeds (record t { connected = false })
        (record { least = h.least; greatest = h.greatest; history = h.history }) in
    record { least = lost.least; greatest = lost.greatest; history = lost.history }
on_recv-IsPaced (received (b ∷ chunk)) succeeds t h = record {
  least = h.least;
  greatest = h.greatest;
  history = h.history;
}
on_recv-IsPaced closed succeeds t h =
    let lost =
      handle_disconnection-IsPaced succeeds (record t { connected = false })
        (record { least = h.least; greatest = h.greatest; history = h.history }) in
    record { least = lost.least; greatest = lost.greatest; history = lost.history }
on_recv-IsPaced timed_out succeeds t h = h
on_recv-IsPaced socket_error succeeds t h =
    handle_disconnection-IsPaced succeeds (record t { connected = false })
      (record { least = h.least; greatest = h.greatest; history = h.history })
on_recv-IsPaced unexpected succeeds t h =
    handle_disconnection-IsPaced succeeds (record t { connected = false })
      (record { least = h.least; greatest = h.greatest; history = h.history })

reader_round-IsPaced :
    (r : Recv) (succeeds : Bool) (t : Transport) → IsPaced t → IsPaced (reader_round r succeeds t)
unfolding reader_round
reader_round-IsPaced r succeeds t h = elim (Bool-cases t.stopped) [
  | inl stop ↦ simp stop h
  | inr goes ↦ elim (Bool-cases (not t.connected || not t.has_socket)) [
    | inl down ↦
        let lost = handle_disconnection-IsPaced succeeds t h in
        simp (goes, down)
          (record { least = lost.least; greatest = lost.greatest; history = lost.history })
    | inr up ↦ simp (goes, up) (on_recv-IsPaced r succeeds t h)
  ]
]

-- From a transport whose delays, slept and to come, are between 2 and 60 seconds: whatever the socket
-- does, they stay so.
pub reader_loop-IsPaced :
    (rounds : List (Recv × Bool)) (t : Transport) → IsPaced t → IsPaced (reader_loop rounds t)
unfolding reader_loop
reader_loop-IsPaced [] t h = h
reader_loop-IsPaced ((r, succeeds) ∷ rounds) t h =
    reader_loop-IsPaced rounds (reader_round r succeeds t) (reader_round-IsPaced r succeeds t h)

-- `n` rounds in which no attempt to reconnect succeeds.
abbrev pub failing : ℕ → List (Recv × Bool)
failing zero = []
failing (suc n) = (timed_out, false) ∷ failing n

abbrev pub IsDown : Transport → Type 0
IsDown t = (t.connected ≡ false) × (t.stopped ≡ false)

pub two_pow_pos : (n : ℕ) → 1 ≤ 2 ^ n
two_pow_pos zero = omega arith
two_pow_pos (suc n) = rw pow-suc (omega (arith, two_pow_pos n))

pub capped_product : (d p : ℕ) → 1 ≤ p → min (min (d * 2) 60 * p) 60 ≡ min (d * (p * 2)) 60
capped_product d p h = elim (dec_le (d * 2) 60) [
  | yes low ↦ let same : min (d * 2) 60 ≡ d * 2 = omega arith in rw same (omega arith)
  | no high ↦
      let same : min (d * 2) 60 ≡ 60 = omega arith in
      let many : 60 * p ≤ d * 2 * p = grind arith in rw same (omega arith)
]

-- From a lost connection with a delay of at most 60 seconds: after `n` attempts to reconnect
-- that fail in a row the delay has doubled `n` times, up to its greatest value, and the
-- connection is still down.
pub reader_loop-failing :
    (n : ℕ) (t : Transport)
    → IsDown t
    → t.reconnect_delay ≤ reconnect_max_delay
    → ((reader_loop (failing n) t).reconnect_delay
        ≡ min (t.reconnect_delay * reconnect_backoff_factor ^ n) reconnect_max_delay)
      × IsDown (reader_loop (failing n) t)
unfolding reader_loop reader_round handle_disconnection
reader_loop-failing zero t down h = (omega arith, down)
reader_loop-failing (suc n) t down h =
    let t' = reader_round timed_out false t in
    let same : t'.reconnect_delay ≡ min (t.reconnect_delay * 2) 60 = simp (down.0, down.1) in
    let down' : IsDown t' = (simp (down.0, down.1), simp (down.0, down.1)) in
    let (delay, still) = reader_loop-failing n t' down' (omega arith) in
    (delay ∙ rw (same, pow-suc) (capped_product t.reconnect_delay (2 ^ n) (two_pow_pos n)), still)
