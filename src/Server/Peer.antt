-- ===== src/Server/Peer.antt =====
-- `PeerConnection` of indi_engine/network/peer.py: its address, by host and port or by the id of an
-- engine that discovery knows, and its loop of connections. What becomes of a connection is an input.
use Prim.Native.Nat.{◌^◌}
use native.Mathlib.Nat.{pow-suc}
use indi_engine.Base.{
  ℕ, zero, suc, ◌*◌, ◌≤◌, min, String, Bool, true, false, not, ◌&&◌, Option, none, some, List, [],
  ◌∷◌, ◌++◌, ◌≡◌, refl, ◌∙◌, arith, if◌then◌else◌,
}
use indi_engine.Base.Dict.{Dict, lookup}
use indi_engine.Base.Numbers.{◌==◌ as nat_eq}
use indi_engine.Base.Result.{Result, ok, err, value_error}
use indi_engine.Protocol.Text.{truthy}
use indi_engine.Transport.Reader.Backoff.{capped_product, two_pow_pos}

abbrev pub initial_backoff : ℕ
initial_backoff = 1

abbrev pub max_backoff : ℕ
max_backoff = 60

abbrev pub resolve_poll : ℕ
resolve_poll = 2

pub data Address : Type 0 where
  direct : String → ℕ → Address
  by_id : String → Address

-- The fields, the local `backoff` of `_run`, the delays slept and the addresses connected to so far
pub record Peer : Type 0 where
  pub address : Address
  pub devices : List String
  pub running : Bool
  pub backoff : ℕ
  pub slept : List ℕ
  pub tried : List (String × ℕ)

abbrev new_peer : Address → List String → Peer
new_peer address devices = record {
  address = address;
  devices = devices;
  running = true;
  backoff = initial_backoff;
  slept = [];
  tried = [];
}

-- `PeerConnection(…)` and `start`; an absent argument is empty or 0, as the tests take it.
unfoldable pub make_peer : String → ℕ → String → Bool → List String → Result Peer
make_peer host port engine_id discovery devices =
    if truthy host && not (nat_eq port 0)
    then ok (new_peer (direct host port) devices)
    else if truthy engine_id && discovery
    then ok (new_peer (by_id engine_id) devices)
    else err value_error

-- The `subscribe` messages of a new connection: none stands for all messages.
unfoldable pub subscribe_messages : List String → List (Option String)
subscribe_messages [] = none ∷ []
subscribe_messages (d ∷ ds) = each (d ∷ ds)
  where
    each : List String → List (Option String)
    each [] = []
    each (x ∷ xs) = some x ∷ each xs

-- How `_connect_and_read` ends.
pub data Attempt : Type 0 where
  disconnected lost : Attempt

-- What discovery knows of the address in one round.
abbrev pub resolved : Dict (String × ℕ) → Address → Option (String × ℕ)
resolved engines (direct host port) = some (host, port)
resolved engines (by_id engine_id) = lookup engine_id engines

abbrev pub after_attempt : Attempt → Peer → Peer
after_attempt disconnected p = record p { backoff = initial_backoff }
after_attempt lost p =
    if p.running
    then record p { slept = p.slept ++ p.backoff ∷ []; backoff = min (p.backoff * 2) max_backoff }
    else p

abbrev pub with_address : Attempt → Option (String × ℕ) → Peer → Peer
with_address attempt none p = record p { slept = p.slept ++ resolve_poll ∷ [] }
with_address attempt (some at) p = after_attempt attempt (record p { tried = p.tried ++ at ∷ [] })

-- One round of `_run`, or of `_resolve` within it.
unfoldable pub run_round : Dict (String × ℕ) → Attempt → Peer → Peer
run_round engines attempt p =
    if not p.running then p else with_address attempt (resolved engines p.address) p

unfoldable pub run_rounds : List (Dict (String × ℕ) × Attempt) → Peer → Peer
run_rounds [] p = p
run_rounds ((engines, attempt) ∷ rounds) p = run_rounds rounds (run_round engines attempt p)

-- `stop`
unfoldable pub stop : Peer → Peer
stop p = record p { running = false }

-- Rounds in which the peer is found and the connection is lost.
abbrev pub losing : Dict (String × ℕ) → ℕ → List (Dict (String × ℕ) × Attempt)
losing engines zero = []
losing engines (suc n) = (engines, lost) ∷ losing engines n

-- After `n` lost connections in a row of a running peer whose address is known, from a delay of
-- at most 60 seconds, the delay before the next attempt has doubled `n` times, up to 60
-- seconds, and the peer still runs.
pub run_rounds-losing :
    (engines : Dict (String × ℕ)) (n : ℕ) (p : Peer) (at : String × ℕ)
    → p.running ≡ true
    → resolved engines p.address ≡ some at
    → p.backoff ≤ max_backoff
    → ((run_rounds (losing engines n) p).backoff ≡ min (p.backoff * 2 ^ n) max_backoff)
      × ((run_rounds (losing engines n) p).running ≡ true)
unfolding run_rounds run_round
run_rounds-losing engines zero p at running found small = (omega arith, running)
run_rounds-losing engines (suc n) p at running found small =
    let p' = run_round engines lost p in
    let same : p'.backoff ≡ min (p.backoff * 2) 60 = rw (running, found) refl in
    let still : p'.running ≡ true = rw (running, found) refl in
    let address : resolved engines p'.address ≡ some at = rw (running, found) found in
    let (backoff, goes) = run_rounds-losing engines n p' at still address (omega (arith, same)) in
    (backoff ∙ rw (same, pow-suc) (capped_product p.backoff (2 ^ n) (two_pow_pos n)), goes)
