-- ===== src/Server/Relay.antt =====
-- Messages that go from engine to engine: `receive_peer_message` in
-- indi_engine/server/socket_server.py with the provenance that `broadcast` writes.
use indi_engine.Base.{
  ℕ, String, Bool, true, false, not, ◌&&◌, ◌||◌, Option, none, some, List, [], ◌∷◌, ◌++◌, ◌≡◌, refl,
  sym, ap, ◌∙◌, arith, if◌then◌else◌, eq_iff, Bool-cases, inl, inr,
}
use mathlib.Core.List.{append-nil, append_assoc}
use indi_engine.Base.Names.{member}
use indi_engine.Server.Delivery.{seen_by, seen_by-or_empty, passed_on, stamp-passed_on}
use indi_engine.Server.Hub.{
  Packet, Hub, send_each, wants, wants_device, Subscriptions, receive_peer_message, broadcast,
}

-- No id stands twice in a provenance.
abbrev pub is_distinct : List String → Bool
is_distinct [] = true
is_distinct (x ∷ xs) = not (member x xs) && is_distinct xs

member-append :
    (k : String) (xs ys : List String) → member k (xs ++ ys) ≡ (member k xs || member k ys)
unfolding member
member-append k [] ys = refl
member-append k (x ∷ xs) ys = ground (arith, member-append k xs ys)

is_distinct-snoc :
    (xs : List String) (id : String)
    → is_distinct (xs ++ id ∷ []) ≡ (is_distinct xs && not (member id xs))
unfolding member
is_distinct-snoc [] id = refl
is_distinct-snoc (x ∷ xs) id =
    ground (arith, is_distinct-snoc xs id, member-append x xs (id ∷ []), eq_iff x id, eq_iff id x)

is_distinct-prefix : (xs ys : List String) → is_distinct xs ≡ false → is_distinct (xs ++ ys) ≡ false
is_distinct-prefix [] ys h = absurd (ground arith)
is_distinct-prefix (x ∷ xs) ys h = ground (arith, is_distinct-prefix xs ys, member-append x xs ys)

abbrev pub open_subscriptions : Subscriptions
open_subscriptions = record { all = true; devices = [] }

open_device : (device : Option String) → not (wants_device device open_subscriptions) ≡ false
open_device none = refl
open_device (some d) = refl

module _ {Body : Type 0} where
  -- An engine with this id and one connection, to the next engine, which has subscribed to all messages
  abbrev pub linked : String → Hub Body
  linked id = record { identity = some id; connections = (0, open_subscriptions) ∷ []; sent = [] }

  abbrev pub first_packet : List (ℕ × Packet Body) → Option (Packet Body)
  first_packet [] = none
  first_packet ((conn, msg) ∷ sent) = some msg

  -- What the next engine gets of a message that one engine receives from a peer
  unfoldable pub onward : String → Option (Packet Body) → Option (Packet Body)
  onward id none = none
  onward id (some msg) = first_packet (receive_peer_message (λ conn. true) msg (linked id)).sent

  -- What comes out of a chain of engines with these ids
  unfoldable pub relay : List String → Option (Packet Body) → Option (Packet Body)
  relay [] o = o
  relay (id ∷ ids) o = relay ids (onward id o)

  abbrev pub is_delivered : Option (Packet Body) → Bool
  is_delivered none = false
  is_delivered (some msg) = true

  relay_nothing : (ids : List String) → relay ids none ≡ none
  unfolding relay onward
  relay_nothing [] = refl
  relay_nothing (id ∷ ids) = relay_nothing ids

  sent_on :
      (id : String) (msg : Packet Body)
      → first_packet (broadcast (λ conn. true) none msg (linked id)).sent
        ≡ some (passed_on (some id) msg)
  unfolding broadcast send_each wants
  sent_on id msg = rw (open_device msg.device) (ap some (stamp-passed_on (some id) msg))

  onward-seen :
      (id : String) (msg : Packet Body)
      → onward id (some msg)
        ≡ (if member id (seen_by msg.provenance) then none else some (passed_on (some id) msg))
  unfolding onward receive_peer_message
  onward-seen id msg = elim (Bool-cases (member id (seen_by msg.provenance))) [
    | inl looped ↦ rw (seen_by-or_empty msg.provenance, looped) refl
    | inr fresh ↦ rw (seen_by-or_empty msg.provenance, fresh) (sent_on id msg)
  ]

  -- Engines in a chain, each with one connection, which has subscribed to all messages and takes what it
  -- is sent, receive a message with distinct ids in its provenance one after the other. It comes out of the
  -- chain exactly when no id is twice among its provenance and the chain: none goes round a loop, and none
  -- is lost otherwise.
  pub relay-distinct :
      (chain : List String) (msg : Packet Body)
      → is_distinct (seen_by msg.provenance) ≡ true
      → is_delivered (relay chain (some msg)) ≡ is_distinct (seen_by msg.provenance ++ chain)
  unfolding relay
  relay-distinct [] msg distinct = rw (append-nil (seen_by msg.provenance)) (sym distinct)
  relay-distinct (id ∷ ids) msg distinct =
      let seen = seen_by msg.provenance in
      let shifted = append_assoc seen (id ∷ []) ids in
      elim (Bool-cases (member id seen)) [
        | inl looped ↦
            rw (onward-seen id msg, looped, relay_nothing ids)
              (sym (
                rw (sym shifted) (
                  is_distinct-prefix (seen ++ id ∷ []) ids
                    (ground (arith, looped, is_distinct-snoc seen id)))))
        | inr fresh ↦
            rw (onward-seen id msg, fresh)
              (relay-distinct ids (passed_on (some id) msg)
                  (ground (arith, fresh, distinct, is_distinct-snoc seen id))
                ∙ rw shifted refl)
      ]
