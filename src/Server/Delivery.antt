-- ===== src/Server/Delivery.antt =====
-- Who gets a message that `broadcast` sends, and what it leaves of the table of connections.
use indi_engine.Base.{
  ℕ, String, Bool, true, false, not, ◌&&◌, ◌||◌, Option, none, some, List, [], ◌∷◌, ◌++◌, ◌≡◌, refl,
  ap, ◌∙◌, arith, if◌then◌else◌, eq_iff, Bool-cases, inl, inr,
}
use indi_engine.Base.Names
use indi_engine.Base.Names.{member, member-add}
use indi_engine.Base.Numbers.{◌==◌ as nat_eq}
use indi_engine.Server.Hub.{
  Subscriptions, Packet, Hub, subscriptions_of, send_each, is_excluded, is_filled, wants, put,
  drop_connection, drop_all, broadcast, stamp, or_empty, subscribe, subscribe_to,
}

-- Every connection stands in the table once.
abbrev pub IsTable : List (ℕ × Subscriptions) → Type 0
IsTable [] = Unit
IsTable ((k, subs) ∷ cs) = (subscriptions_of k cs ≡ none) × IsTable cs

-- A connection has subscribed to what concerns a device, or no device.
abbrev pub is_subscribed : Option String → Subscriptions → Bool
is_subscribed none subs = subs.all
is_subscribed (some d) subs = subs.all || member d subs.devices

-- A connection, with its subscriptions if it is in the table, is to have a message.
abbrev pub is_target : Option ℕ → Option String → ℕ → Option Subscriptions → Bool
is_target exclude device conn none = false
is_target none device conn (some subs) = is_subscribed device subs
is_target (some k) device conn (some subs) = not (nat_eq k conn) && is_subscribed device subs

abbrev has : ℕ → List ℕ → Bool
has conn [] = false
has conn (k ∷ ks) = nat_eq k conn || has conn ks

drop_connection-lookup :
    (k conn : ℕ) (cs : List (ℕ × Subscriptions))
    → subscriptions_of conn (drop_connection k cs)
      ≡ (if nat_eq k conn then none else subscriptions_of conn cs)
unfolding subscriptions_of drop_connection
drop_connection-lookup k conn [] = ground arith
drop_connection-lookup k conn ((i, subs) ∷ cs) = ground (arith, drop_connection-lookup k conn cs)

drop_all-lookup :
    (conn : ℕ) (dead : List ℕ) (cs : List (ℕ × Subscriptions))
    → subscriptions_of conn (drop_all dead cs)
      ≡ (if has conn dead then none else subscriptions_of conn cs)
unfolding drop_all
drop_all-lookup conn [] cs = refl
drop_all-lookup conn (k ∷ dead) cs =
    ground
      (arith, drop_all-lookup conn dead (drop_connection k cs), drop_connection-lookup k conn cs)

pub put-lookup :
    (k conn : ℕ) (subs : Subscriptions) (cs : List (ℕ × Subscriptions))
    → subscriptions_of conn (put k subs cs)
      ≡ (if nat_eq k conn then some subs else subscriptions_of conn cs)
unfolding subscriptions_of put
put-lookup k conn subs [] = refl
put-lookup k conn subs ((i, old) ∷ cs) = ground (arith, put-lookup k conn subs cs)

is_filled-member : (d : String) (ds : List String) → member d ds ≡ true → is_filled ds ≡ true
unfolding member
is_filled-member d [] h = absurd (ground (arith, h))
is_filled-member d (x ∷ ds) h = refl

wants-is_subscribed :
    (device : Option String) (subs : Subscriptions) → wants device subs ≡ is_subscribed device subs
unfolding wants
wants-is_subscribed none subs = ground arith
wants-is_subscribed (some d) subs = ground (arith, is_filled-member d subs.devices)

taken-is_target :
    (exclude : Option ℕ) (device : Option String) (conn : ℕ) (subs : Subscriptions)
    → (not (is_excluded exclude conn) && wants device subs)
      ≡ is_target exclude device conn (some subs)
taken-is_target none device conn subs = wants-is_subscribed device subs
taken-is_target (some k) device conn subs = ground (arith, wants-is_subscribed device subs)

subscribe_to-wants :
    (device : Option String) (subs : Subscriptions) → wants device (subscribe_to device subs) ≡ true
unfolding wants
subscribe_to-wants none subs = refl
subscribe_to-wants (some d) subs =
    ground (
      arith,
      member-add d d subs.devices,
      eq_iff d d,
      is_filled-member d (Names.add d subs.devices),
    )

-- The ids in a provenance
abbrev pub seen_by : Option (List String) → List String
seen_by none = []
seen_by (some ids) = ids

pub seen_by-or_empty : (o : Option (List String)) → or_empty o ≡ seen_by o
seen_by-or_empty none = refl
seen_by-or_empty (some ids) = refl

module _ {Body : Type 0} where
  -- The message that an engine with this id passes on: the id stands behind the ids in its provenance.
  abbrev pub passed_on : Option String → Packet Body → Packet Body
  passed_on none msg = msg
  passed_on (some id) msg = record {
    device = msg.device;
    provenance = some (seen_by msg.provenance ++ id ∷ []);
    body = msg.body;
  }

  pub stamp-passed_on : (o : Option String) (msg : Packet Body) → stamp o msg ≡ passed_on o msg
  stamp-passed_on none msg = refl
  stamp-passed_on (some id) msg =
      ap (λ ids. record msg { provenance = some (ids ++ id ∷ []) })
        (seen_by-or_empty msg.provenance)

  passed_on-device : (o : Option String) (msg : Packet Body) → (passed_on o msg).device ≡ msg.device
  passed_on-device none msg = refl
  passed_on-device (some id) msg = refl

  -- What a connection was sent, in order.
  abbrev pub packets_to : ℕ → List (ℕ × Packet Body) → List (Packet Body)
  packets_to conn [] = []
  packets_to conn ((k, msg) ∷ sent) =
      let rest = packets_to conn sent in if nat_eq k conn then msg ∷ rest else rest

  send_each-packets :
      (accepts : ℕ → Bool) (exclude : Option ℕ) (msg : Packet Body) (cs : List (ℕ × Subscriptions))
      (conn : ℕ)
      → IsTable cs
      → packets_to conn (send_each accepts exclude msg cs).0 ≡ (
          if is_target exclude msg.device conn (subscriptions_of conn cs) && accepts conn
          then msg ∷ []
          else [])
  unfolding send_each subscriptions_of
  send_each-packets accepts exclude msg [] conn h = refl
  send_each-packets accepts exclude msg ((k, subs) ∷ cs) conn (fresh, h) =
      elim (Bool-cases (nat_eq k conn)) [
        | inl here ↦
            let same : k ≡ conn = ground (arith, here) in
            ground (
              arith,
              here,
              same,
              fresh,
              taken-is_target exclude msg.device k subs,
              send_each-packets accepts exclude msg cs k h,
            )
        | inr other ↦ ground (arith, other, send_each-packets accepts exclude msg cs conn h)
      ]

  pub packets_to-append :
      (conn : ℕ) (xs ys : List (ℕ × Packet Body))
      → packets_to conn (xs ++ ys) ≡ packets_to conn xs ++ packets_to conn ys
  packets_to-append conn [] ys = refl
  packets_to-append conn ((k, msg) ∷ xs) ys = elim (Bool-cases (nat_eq k conn)) [
    | inl here ↦ rw (here, packets_to-append conn xs ys) refl
    | inr other ↦ rw (other, packets_to-append conn xs ys) refl
  ]

  -- In a table where every connection stands once, a broadcast sends a connection the message once, with
  -- the engine's own id, if it has one, at the end of its provenance, if the connection is in the table, is
  -- not the excluded one, has subscribed to all messages or to the message's device, and its socket takes
  -- it; every other connection it sends nothing.
  pub broadcast-delivers :
      (accepts : ℕ → Bool) (exclude : Option ℕ) (msg : Packet Body) (h : Hub Body) (conn : ℕ)
      → IsTable h.connections
      → packets_to conn (broadcast accepts exclude msg h).sent
        ≡ packets_to conn h.sent
          ++ (if is_target exclude msg.device conn (subscriptions_of conn h.connections)
                && accepts conn
              then passed_on h.identity msg ∷ []
              else [])
  unfolding broadcast
  broadcast-delivers accepts exclude msg h conn table =
      let out = stamp h.identity msg in
      let device : out.device ≡ msg.device =
        ap (λ (m : Packet Body). m.device) (stamp-passed_on h.identity msg)
        ∙ passed_on-device h.identity msg in
      packets_to-append conn h.sent _
      ∙ rw
          (
            send_each-packets accepts exclude out h.connections conn table,
            device,
            stamp-passed_on h.identity msg,
          )
          refl

  send_each-dead :
      (accepts : ℕ → Bool) (exclude : Option ℕ) (msg : Packet Body) (cs : List (ℕ × Subscriptions))
      (conn : ℕ)
      → IsTable cs
      → has conn (send_each accepts exclude msg cs).1
        ≡ (is_target exclude msg.device conn (subscriptions_of conn cs) && not (accepts conn))
  unfolding send_each subscriptions_of
  send_each-dead accepts exclude msg [] conn h = refl
  send_each-dead accepts exclude msg ((k, subs) ∷ cs) conn (fresh, h) =
      elim (Bool-cases (nat_eq k conn)) [
        | inl here ↦
            let same : k ≡ conn = ground (arith, here) in
            ground (
              arith,
              here,
              same,
              fresh,
              taken-is_target exclude msg.device k subs,
              send_each-dead accepts exclude msg cs k h,
            )
        | inr other ↦ ground (arith, other, send_each-dead accepts exclude msg cs conn h)
      ]

  -- In such a table, where every connection stands once, a broadcast removes the connections
  -- that it was to send the message to and whose socket did not take it, and leaves every other
  -- one with its subscriptions.
  pub broadcast-drops :
      (accepts : ℕ → Bool) (exclude : Option ℕ) (msg : Packet Body) (h : Hub Body) (conn : ℕ)
      → IsTable h.connections
      → subscriptions_of conn (broadcast accepts exclude msg h).connections ≡ (
          if is_target exclude
              (stamp h.identity msg).device
              conn
              (subscriptions_of conn h.connections)
            && not (accepts conn)
          then none
          else subscriptions_of conn h.connections)
  unfolding broadcast
  broadcast-drops accepts exclude msg h conn table =
      drop_all-lookup conn _ h.connections
      ∙ rw (send_each-dead accepts exclude (stamp h.identity msg) h.connections conn table) refl

  -- A connection of the table that subscribes to a device, or to all messages, then has that in its
  -- subscriptions, which let messages of the device, or of no device, through; the other connections
  -- keep their subscriptions.
  pub subscribe-wants :
      (conn j : ℕ) (device : Option String) (subs : Subscriptions) (h : Hub Body)
      → subscriptions_of conn h.connections ≡ some subs
      → (subscriptions_of j (subscribe conn device h).connections ≡ (
          if nat_eq conn j
          then some (subscribe_to device subs)
          else subscriptions_of j h.connections))
        × (wants device (subscribe_to device subs) ≡ true)
  unfolding subscribe
  subscribe-wants conn j device subs h at = (
    rw at (put-lookup conn j (subscribe_to device subs) h.connections),
    subscribe_to-wants device subs,
  )
