-- ===== src/Server/Hub.antt =====
-- The connections and the broadcasts of `SocketServer` in indi_engine/server/socket_server.py. A
-- connection is a number, and what `sendall` does is an input of each step. Of a message the server
-- reads the device and the provenance; the other fields are its `body`.
use indi_engine.Base.{
  ℕ, String, Bool, true, false, not, ◌&&◌, ◌||◌, Option, none, some, List, [], ◌∷◌, ◌++◌,
  if◌then◌else◌,
}
use indi_engine.Base.Numbers.{◌==◌ as nat_eq}
use indi_engine.Base.Names
use indi_engine.Base.Names.{member}

-- A set of subscriptions: the devices, and whether None (all messages) is in it.
pub record Subscriptions : Type 0 where
  pub all : Bool
  pub devices : List String

pub record Packet (Body : Type 0) : Type 0 where
  pub device : Option String
  pub provenance : Option (List String)
  pub body : Body

-- `_connections`, in the order of the dict, `_engine_identity.id`, and all that was sent so far
pub record Hub (Body : Type 0) : Type 0 where
  pub identity : Option String
  pub connections : List (ℕ × Subscriptions)
  pub sent : List (ℕ × Packet Body)

abbrev pub no_subscriptions : Subscriptions
no_subscriptions = record { all = false; devices = [] }

abbrev pub is_filled : List String → Bool
is_filled [] = false
is_filled (x ∷ xs) = true

-- The tests of `broadcast` on one subscription set.
abbrev pub wants_device : Option String → Subscriptions → Bool
wants_device none subs = subs.all
wants_device (some d) subs = subs.all || member d subs.devices

unfoldable pub wants : Option String → Subscriptions → Bool
wants device subs = (subs.all || is_filled subs.devices) && wants_device device subs

-- `self._connections.get(conn)`
unfoldable pub subscriptions_of : ℕ → List (ℕ × Subscriptions) → Option Subscriptions
subscriptions_of conn [] = none
subscriptions_of conn ((k, subs) ∷ cs) =
    if nat_eq k conn then some subs else subscriptions_of conn cs

-- `self._connections[conn] = subs`
unfoldable pub put : ℕ → Subscriptions → List (ℕ × Subscriptions) → List (ℕ × Subscriptions)
put conn subs [] = (conn, subs) ∷ []
put conn subs ((k, old) ∷ cs) =
    if nat_eq k conn then (k, subs) ∷ cs else (k, old) ∷ put conn subs cs

-- `self._connections.pop(conn, None)`
unfoldable pub drop_connection : ℕ → List (ℕ × Subscriptions) → List (ℕ × Subscriptions)
drop_connection conn [] = []
drop_connection conn ((k, subs) ∷ cs) =
    let rest = drop_connection conn cs in if nat_eq k conn then rest else (k, subs) ∷ rest

unfoldable pub drop_all : List ℕ → List (ℕ × Subscriptions) → List (ℕ × Subscriptions)
drop_all [] cs = cs
drop_all (k ∷ dead) cs = drop_all dead (drop_connection k cs)

abbrev pub is_excluded : Option ℕ → ℕ → Bool
is_excluded none conn = false
is_excluded (some k) conn = nat_eq k conn

abbrev pub or_empty : Option (List String) → List String
or_empty none = []
or_empty (some ps) = ps

abbrev pub subscribe_to : Option String → Subscriptions → Subscriptions
subscribe_to none subs = record subs { all = true }
subscribe_to (some d) subs = record subs { devices = Names.add d subs.devices }

abbrev pub unsubscribe_from : Option String → Subscriptions → Subscriptions
unsubscribe_from none subs = record subs { all = false }
unsubscribe_from (some d) subs = record subs { devices = Names.discard d subs.devices }

module _ {Body : Type 0} where
  -- The message with the engine's own id at the end of its provenance.
  abbrev pub stamp : Option String → Packet Body → Packet Body
  stamp none msg = msg
  stamp (some id) msg = record msg { provenance = some (or_empty msg.provenance ++ id ∷ []) }

  -- The loop over the snapshot: the packets that `sendall` takes, and the connections whose
  -- `sendall` raises OSError.
  unfoldable pub send_each :
      (ℕ → Bool)
      → Option ℕ
      → Packet Body
      → List (ℕ × Subscriptions)
      → List (ℕ × Packet Body) × List ℕ
  send_each accepts exclude msg [] = ([], [])
  send_each accepts exclude msg ((k, subs) ∷ cs) =
      let (taken, dead) = send_each accepts exclude msg cs in
      if is_excluded exclude k
      then (taken, dead)
      else if not (wants msg.device subs)
      then (taken, dead)
      else if accepts k
      then ((k, msg) ∷ taken, dead)
      else (taken, k ∷ dead)

  -- `broadcast`
  unfoldable pub broadcast : (ℕ → Bool) → Option ℕ → Packet Body → Hub Body → Hub Body
  broadcast accepts exclude msg h =
      let (taken, dead) = send_each accepts exclude (stamp h.identity msg) h.connections in
      record h { connections = drop_all dead h.connections; sent = h.sent ++ taken }

  -- The id is in the provenance.
  abbrev pub is_looped : Option String → Packet Body → Bool
  is_looped none msg = false
  is_looped (some id) msg = member id (or_empty msg.provenance)

  -- `receive_peer_message`
  unfoldable pub receive_peer_message : (ℕ → Bool) → Packet Body → Hub Body → Hub Body
  receive_peer_message accepts msg h =
      if is_looped h.identity msg then h else broadcast accepts none msg h

  -- A new connection of `_accept_loop`, and the end of `_handle_client`
  unfoldable pub accept : ℕ → Hub Body → Hub Body
  accept conn h = record h { connections = put conn no_subscriptions h.connections }

  unfoldable pub hang_up : ℕ → Hub Body → Hub Body
  hang_up conn h = record h { connections = drop_connection conn h.connections }

  abbrev pub change_subscriptions :
      ℕ → (Subscriptions → Subscriptions) → Option Subscriptions → Hub Body → Hub Body
  change_subscriptions conn change none h = h
  change_subscriptions conn change (some subs) h = record h {
    connections = put conn (change subs) h.connections;
  }

  -- The changes of `_handle_subscription` to the table; a connection that is gone stays so.
  unfoldable pub subscribe : ℕ → Option String → Hub Body → Hub Body
  subscribe conn device h =
      change_subscriptions conn (subscribe_to device) (subscriptions_of conn h.connections) h

  unfoldable pub unsubscribe : ℕ → Option String → Hub Body → Hub Body
  unsubscribe conn device h =
      change_subscriptions conn (unsubscribe_from device) (subscriptions_of conn h.connections) h

  -- `stop`, as far as the table
  unfoldable pub stop : Hub Body → Hub Body
  stop h = record h { connections = [] }
