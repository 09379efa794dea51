-- ===== src/Server/Engine/Sent.antt =====
-- What a request makes the server send: to the client that asks, and to the others.
use indi_engine.Base.{
  ℕ, String, Bool, true, false, ◌&&◌, Option, none, some, List, [], ◌∷◌, ◌++◌, ◌≡◌, refl, ◌∙◌,
  arith, if◌then◌else◌, branches, map, ap, ◌==◌, Bool-cases, inl, inr,
}
use mathlib.Core.List.{append-nil, append_assoc}
use indi_engine.Base.Dict.{values}
use indi_engine.Base.Numbers.{◌==◌ as nat_eq}
use indi_engine.Protocol.Client.{Client}
use indi_engine.Protocol.Properties.{Property, Device}
use indi_engine.Protocol.Runtime.{Runtime}
use indi_engine.Server.Serializer.{serialize_property}
use indi_engine.Server.Delivery.{packets_to, packets_to-append}
use indi_engine.Server.Engine.{Command, Reply, World, says, send_to}
use indi_engine.Server.Engine.Devices.{
  handle_subscription, send_current_state, send_all, state_packets, ack, definitions, role_packets,
}
use indi_engine.Server.Hub.{Packet, Hub, Subscriptions, subscriptions_of, subscribe}

-- The devices with a name, or all
abbrev pub chosen : {py : Runtime} → Option String → List (Device py) → List (Device py)
chosen none ds = ds
chosen (some name) [] = []
chosen (some name) (d ∷ ds) =
    let rest = chosen (some name) ds in if d.name == name then d ∷ rest else rest

module _ {py : Runtime} {Params : Type 0} where
  -- One message to one connection
  abbrev pub delivered :
      World py Params → ℕ → Packet (Reply py Params) → List (Packet (Reply py Params))
  delivered w conn msg = if w.accepts conn then msg ∷ [] else []

  pub send_to-packets :
      (w : World py Params) (conn k : ℕ) (msg : Packet (Reply py Params))
      (h : Hub (Reply py Params))
      → packets_to k (send_to w conn msg h).sent
        ≡ packets_to k h.sent ++ (if nat_eq conn k then delivered w conn msg else [])
  unfolding send_to
  send_to-packets w conn k msg h = elim (Bool-cases (w.accepts conn)) [
    | inl takes ↦ simp (takes) (packets_to-append k h.sent ((conn, msg) ∷ []))
    | inr refuses ↦ simp (refuses) (ground (arith, append-nil (packets_to k h.sent)))
  ]

  pub send_to-connections :
      (w : World py Params) (conn : ℕ) (msg : Packet (Reply py Params)) (h : Hub (Reply py Params))
      → ((send_to w conn msg h).connections ≡ h.connections)
        × ((send_to w conn msg h).identity ≡ h.identity)
  unfolding send_to
  send_to-connections w conn msg h = (ground arith, ground arith)

  send_all-packets :
      (w : World py Params) (conn k : ℕ) (msgs : List (Packet (Reply py Params)))
      (h : Hub (Reply py Params))
      → packets_to k (send_all w conn msgs h).sent
        ≡ packets_to k h.sent ++ (if nat_eq conn k && w.accepts conn then msgs else [])
  unfolding send_all
  send_all-packets w conn k [] h = ground (arith, append-nil (packets_to k h.sent))
  send_all-packets w conn k (msg ∷ msgs) h = elim (Bool-cases (w.accepts conn)) [
    | inl takes ↦
        simp
          (
            takes,
            send_all-packets w conn k msgs (send_to w conn msg h),
            send_to-packets w conn k msg h,
          )
          (elim (Bool-cases (nat_eq conn k)) [
            | inl here ↦ simp (here) (append_assoc (packets_to k h.sent) (msg ∷ []) msgs)
            | inr other ↦ simp (other) (append-nil (packets_to k h.sent ++ []))
          ])
    | inr refuses ↦ simp (refuses) (ground (arith, append-nil (packets_to k h.sent)))
  ]

  abbrev about : String → Reply py Params → Packet (Reply py Params)
  about device reply = record { device = some device; provenance = none; body = reply }

  abbrev definition : World py Params → Property py → Packet (Reply py Params)
  definition w p = about p.device_name (Reply.property_message (serialize_property w.show "def" p))

  abbrev roles : String → List String → List (Packet (Reply py Params))
  roles name [] = []
  roles name (t ∷ ts) = about name (Reply.device_type (t ∷ ts)) ∷ []

  -- The state of a device: a definition of each of its properties, and its types if it has any
  abbrev pub state : World py Params → Device py → List (Packet (Reply py Params))
  state w d = map (definition w) (values d.properties) ++ roles d.name d.device_types

  abbrev pub states : World py Params → List (Device py) → List (Packet (Reply py Params))
  states w [] = []
  states w (d ∷ ds) = state w d ++ states w ds

  -- The state of the chosen devices that the client has
  abbrev pub snapshot :
      World py Params → Option String → Option (Client py) → List (Packet (Reply py Params))
  snapshot w device none = []
  snapshot w device (some c) = states w (chosen device (values c.devices))

  definitions-map :
      (w : World py Params) (ps : List (Property py))
      → definitions {Params = Params} w.show ps ≡ map (definition w) ps
  unfolding definitions
  definitions-map w [] = refl
  definitions-map w (p ∷ ps) = ap (λ ms. definition w p ∷ ms) (definitions-map w ps)

  role_packets-roles :
      (name : String) (ts : List String)
      → role_packets {py = py} {Params = Params} name ts ≡ roles name ts
  role_packets-roles name [] = refl
  role_packets-roles name (t ∷ ts) = refl

  described :
      (w : World py Params) (d : Device py) (rest : List (Packet (Reply py Params)))
      → definitions w.show (values d.properties) ++ role_packets d.name d.device_types ++ rest
        ≡ state w d ++ rest
  described w d rest =
      rw (definitions-map w (values d.properties), role_packets-roles d.name d.device_types) refl

  state_packets-states :
      (w : World py Params) (device : Option String) (ds : List (Device py))
      → state_packets w.show device ds ≡ states w (chosen device ds)
  unfolding state_packets
  state_packets-states w none [] = refl
  state_packets-states w (some name) [] = refl
  state_packets-states w none (d ∷ ds) =
      described w d _ ∙ ap (λ ms. state w d ++ ms) (state_packets-states w none ds)
  state_packets-states w (some name) (d ∷ ds) = elim (Bool-cases (d.name == name)) [
    | inl named ↦ rw (named, state_packets-states w (some name) ds) (described w d _)
    | inr other ↦ rw (other) (state_packets-states w (some name) ds)
  ]

  pub send_current_state-packets :
      (w : World py Params) (conn k : ℕ) (device : Option String) (c : Option (Client py))
      (h : Hub (Reply py Params))
      → packets_to k (send_current_state w conn device c h).sent
        ≡ packets_to k h.sent
          ++ (if nat_eq conn k && w.accepts conn then snapshot w device c else [])
  unfolding send_current_state
  send_current_state-packets w conn k device none h =
      ground (arith, append-nil (packets_to k h.sent))
  send_current_state-packets w conn k device (some c) h =
      send_all-packets w conn k (state_packets w.show device (values c.devices)) h
      ∙ rw (state_packets-states w device (values c.devices)) refl

  send_all-connections :
      (w : World py Params) (conn : ℕ) (msgs : List (Packet (Reply py Params)))
      (h : Hub (Reply py Params))
      → (send_all w conn msgs h).connections ≡ h.connections
  unfolding send_all
  send_all-connections w conn [] h = refl
  send_all-connections w conn (msg ∷ msgs) h =
      branches (λ (h' : Hub (Reply py Params)). h'.connections ≡ h.connections) (w.accepts conn) _ _
        (send_all-connections w conn msgs (send_to w conn msg h)
          ∙ (send_to-connections w conn msg h).0)
        refl

  pub send_current_state-connections :
      (w : World py Params) (conn : ℕ) (device : Option String) (c : Option (Client py))
      (h : Hub (Reply py Params))
      → (send_current_state w conn device c h).connections ≡ h.connections
  unfolding send_current_state
  send_current_state-connections w conn device none h = refl
  send_current_state-connections w conn device (some c) h =
      send_all-connections w conn (state_packets w.show device (values c.devices)) h

  subscribe-sent :
      (conn k : ℕ) (device : Option String) (subs : Subscriptions) (h : Hub (Reply py Params))
      → subscriptions_of conn h.connections ≡ some subs
      → packets_to k (subscribe conn device h).sent ≡ packets_to k h.sent
  unfolding subscribe
  subscribe-sent conn k device subs h there = rw there refl

  -- A connection of the table that subscribes is sent, if its socket takes it, the acknowledgement and
  -- after it the state of the client's devices with the name in the command, or of all devices without one:
  -- for each the definitions of its properties and then its types, if it has any. No other connection is
  -- sent anything.
  pub handle_subscription-sends :
      (w : World py Params) (cmd : Command Params) (conn k : ℕ) (c : Option (Client py))
      (h : Hub (Reply py Params)) (subs : Subscriptions)
      → says cmd.type "subscribe" ≡ true
      → subscriptions_of conn h.connections ≡ some subs
      → packets_to k (handle_subscription w cmd conn c h).sent
        ≡ packets_to k h.sent
          ++ (if nat_eq conn k && w.accepts conn
              then ack cmd.device Reply.subscribe_ack ∷ snapshot w cmd.device c
              else [])
  unfolding handle_subscription
  handle_subscription-sends w cmd conn k c h subs subscribes there =
      let h₁ = subscribe conn cmd.device h in
      let same : packets_to k h₁.sent ≡ packets_to k h.sent =
        subscribe-sent conn k cmd.device subs h there in
      let msg = ack cmd.device Reply.subscribe_ack in
      simp
        (
          there,
          subscribes,
          send_current_state-packets w conn k cmd.device c (send_to w conn msg h₁),
          send_to-packets w conn k msg h₁,
          same,
        )
        (joined (nat_eq conn k) (w.accepts conn) msg)
    where
      joined :
          (here takes : Bool) (msg : Packet (Reply py Params))
          → (packets_to k h.sent ++ (if here then (if takes then msg ∷ [] else []) else []))
              ++ (if here && takes then snapshot w cmd.device c else [])
            ≡ packets_to k h.sent ++ (if here && takes then msg ∷ snapshot w cmd.device c else [])
      joined true true msg = append_assoc (packets_to k h.sent) (msg ∷ []) (snapshot w cmd.device c)
      joined true false msg = append-nil (packets_to k h.sent ++ [])
      joined false takes msg = append-nil (packets_to k h.sent ++ [])
