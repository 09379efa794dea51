-- ===== src/Main.antt =====
-- The parts of indi_engine/main.py that compute: the capabilities of the configuration, the attempts to
-- connect to the INDI server, the peers, and the engine's identity. The callbacks are in `Main.Callbacks`.
pub mod Callbacks
pub mod Attempts
mod Tests
use indi_engine.Base.{
  ℕ, zero, suc, ◌+◌, ◌-◌, String, Bool, true, false, Option, none, some, List, [], ◌∷◌, ◌++◌,
  if◌then◌else◌, ◌==◌,
}
use indi_engine.Base.Dict.{Dict}
use indi_engine.Base.Result.{Result, ok, err}
use indi_engine.Protocol.Client.{Client}
use indi_engine.Protocol.Client.Session.{connect_server, watch_device}
use indi_engine.Protocol.Runtime.{Runtime}
use indi_engine.Protocol.Text.{truthy}
use indi_engine.Server.Peer.{Peer, make_peer}

-- An item of the YAML list: a text, a mapping of ids to scripts, or something else.
pub data Item : Type 0 where
  named : String → Item
  mapped : Dict (Option String) → Item
  other : Item

abbrev pub capability_of : Item → List (String × Option String)
capability_of (named id) = (id, none) ∷ []
capability_of (mapped scripts) = scripts
capability_of other = []

-- `_parse_capabilities`
unfoldable pub parse_capabilities : List Item → List (String × Option String)
parse_capabilities [] = []
parse_capabilities (item ∷ items) = capability_of item ++ parse_capabilities items

-- How `_connect_indi` returns: what it answers, the seconds slept, and the client
pub record Connected (py : Runtime) : Type 0 where
  pub answer : Bool
  pub slept : ℕ
  pub client : Client py

module _ {py : Runtime} where
  abbrev slept_more : Connected py → Connected py
  slept_more r = record r { slept = suc r.slept }

  abbrev pub after_attempt :
      ℕ → Bool → Result (Unit {0}) × Client py → (Client py → Connected py) → Connected py
  after_attempt left takes (ok u, c) again = record {
    answer = true;
    slept = 0;
    client = watch_device takes "" c;
  }
  after_attempt zero takes (err e, c) again = record { answer = false; slept = 0; client = c }
  after_attempt (suc left) takes (err e, c) again = slept_more (again c)

  -- The loop from an attempt on, with the number of attempts left. What the two calls of the socket do is
  -- given by the number of the attempt.
  unfoldable pub connect_from : (ℕ → Bool × Bool) → ℕ → ℕ → Client py → Connected py
  connect_from outcome attempt zero c = record { answer = false; slept = 0; client = c }
  connect_from outcome attempt (suc left) c =
      after_attempt left (outcome attempt).1 (connect_server (outcome attempt).0 c)
        (λ c'. connect_from outcome (suc attempt) left c')

  -- `_connect_indi`
  unfoldable pub connect_indi : (ℕ → Bool × Bool) → ℕ → Client py → Connected py
  connect_indi outcome max_attempts c = connect_from outcome 1 max_attempts c

-- An entry of `engine.subscriptions`
pub record Subscription : Type 0 where
  pub host : Option String
  pub port : Option ℕ
  pub id : Option String
  pub devices : Option (List String)

abbrev pub or_none : Option (List String) → List String
or_none none = []
or_none (some ds) = ds

abbrev by_engine : Option String → List String → Option (Result Peer)
by_engine none devices = none
by_engine (some id) devices = some (make_peer "" 0 id true devices)

abbrev by_address : Option String → Option ℕ → Option String → List String → Option (Result Peer)
by_address (some host) (some port) id devices = some (make_peer host port "" false devices)
by_address host port id devices = by_engine id devices

-- The peer of an entry; an entry with neither a host and a port nor an id is skipped.
unfoldable pub peer_of : Subscription → Option (Result Peer)
peer_of sub = by_address sub.host sub.port sub.id (or_none sub.devices)

abbrev then_peer : Option (Result Peer) → Result (List Peer) → Result (List Peer)
then_peer none peers = peers
then_peer (some (err e)) peers = err e
then_peer (some (ok p)) (err e) = err e
then_peer (some (ok p)) (ok peers) = ok (p ∷ peers)

-- The loop that starts the peers; a ValueError of `PeerConnection` ends the program.
unfoldable pub start_peers : List Subscription → Result (List Peer)
start_peers [] = ok []
start_peers (sub ∷ subs) = then_peer (peer_of sub) (start_peers subs)

-- `EngineIdentity` of indi_engine/network/identity.py: the id and the name, with a fresh UUID and the host's
-- name at hand.
unfoldable pub engine_identity : Option String → String → String → String → String × String
engine_identity none name uuid hostname = (uuid, if name == "auto" then hostname else name)
engine_identity (some engine_id) name uuid hostname =
    (if truthy engine_id then engine_id else uuid, if name == "auto" then hostname else name)
