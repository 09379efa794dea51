-- ===== src/Server/Engine/Devices.antt =====
-- `_handle_device_control`, `_handle_subscription` with `_send_current_state`,
-- `_handle_capability_request` and `_handle_engine_list_request` of
-- indi_engine/server/socket_server.py.
use indi_engine.Base.{
  ℕ, String, Bool, false, not, Option, none, some, List, [], ◌∷◌, ◌++◌, if◌then◌else◌, ◌==◌,
}
use indi_engine.Base.Dict.{Dict, lookup, values}
use indi_engine.IndiServer.{Manager}
use indi_engine.Protocol.Client.{Client}
use indi_engine.Protocol.Properties.{Property, Device}
use indi_engine.Protocol.Runtime.{Runtime}
use indi_engine.Server.Engine.{
  Command, unavailable, missing_field, unknown_action, unknown_device, Reply, World, Engine, says,
  is_given, or_blank, system, of_device, send_to, reply_to, EngineInfo,
}
use indi_engine.Server.Hub.{Packet, Hub, Subscriptions, subscriptions_of}
use indi_engine.Server.Hub
use indi_engine.Server.Serializer.{Show, serialize_property, serialize_device_info}

-- `device is not None and dev.name != device`
abbrev pub skips : Option String → String → Bool
skips none name = false
skips (some device) name = not (name == device)

module _ {py : Runtime} {Params : Type 0} where
  -- The replies to "list" and "get"
  abbrev info_reply : Show py → String → Option (Device py) → Packet (Reply py Params)
  info_reply show name none = system (Reply.device_error (unknown_device name))
  info_reply show name (some d) =
      of_device d.name (Reply.device_info (serialize_device_info show d))

  abbrev get_reply : Show py → Option String → Client py → Packet (Reply py Params)
  get_reply show name c =
      if not (is_given name)
      then system (Reply.device_error (missing_field "device"))
      else info_reply show (or_blank name) (lookup (or_blank name) c.devices)

  unfoldable pub device_reply :
      Show py → Command Params → Option (Client py) → Packet (Reply py Params)
  device_reply show cmd none = system (Reply.device_error unavailable)
  device_reply show cmd (some c) =
      if says cmd.action "list"
      then system (Reply.device_list c.known.known_devices)
      else if says cmd.action "get"
      then get_reply show cmd.device c
      else system (Reply.device_error (unknown_action cmd.action))

  -- `json.dumps(serialize_property(prop, "def"))`, of each property
  unfoldable pub definitions : Show py → List (Property py) → List (Packet (Reply py Params))
  definitions show [] = []
  definitions show (p ∷ ps) =
      of_device p.device_name (Reply.property_message (serialize_property show "def" p))
      ∷ definitions show ps

  abbrev pub role_packets : String → List String → List (Packet (Reply py Params))
  role_packets device [] = []
  role_packets device (role ∷ roles) = of_device device (Reply.device_type (role ∷ roles)) ∷ []

  -- The messages of `_send_current_state`, in order
  unfoldable pub state_packets :
      Show py → Option String → List (Device py) → List (Packet (Reply py Params))
  state_packets show device [] = []
  state_packets show device (d ∷ ds) =
      let rest = state_packets show device ds in
      if skips device d.name
      then rest
      else definitions show (values d.properties) ++ role_packets d.name d.device_types ++ rest

  -- `sendall` of one message after the other; the first OSError ends it.
  unfoldable pub send_all :
      World py Params
      → ℕ
      → List (Packet (Reply py Params))
      → Hub (Reply py Params)
      → Hub (Reply py Params)
  send_all w conn [] h = h
  send_all w conn (msg ∷ msgs) h =
      let sent = send_all w conn msgs (send_to w conn msg h) in if w.accepts conn then sent else h

  -- `_send_current_state`
  unfoldable pub send_current_state :
      World py Params
      → ℕ
      → Option String
      → Option (Client py)
      → Hub (Reply py Params)
      → Hub (Reply py Params)
  send_current_state w conn device none h = h
  send_current_state w conn device (some c) h =
      send_all w conn (state_packets w.show device (values c.devices)) h

  abbrev pub ack : Option String → Reply py Params → Packet (Reply py Params)
  ack device reply = record { device = device; provenance = none; body = reply }

  abbrev pub subscription :
      World py Params
      → Command Params
      → ℕ
      → Option (Client py)
      → Option Subscriptions
      → Hub (Reply py Params)
      → Hub (Reply py Params)
  subscription w cmd conn c none h = h
  subscription w cmd conn c (some subs) h =
      if says cmd.type "subscribe"
      then send_current_state w conn cmd.device c
          (send_to w conn (ack cmd.device Reply.subscribe_ack) (Hub.subscribe conn cmd.device h))
      else send_to w conn (ack cmd.device Reply.unsubscribe_ack) (Hub.unsubscribe conn cmd.device h)

  -- `_handle_subscription`
  unfoldable pub handle_subscription :
      World py Params
      → Command Params
      → ℕ
      → Option (Client py)
      → Hub (Reply py Params)
      → Hub (Reply py Params)
  handle_subscription w cmd conn c h =
      subscription w cmd conn c (subscriptions_of conn h.connections) h

abbrev pub devices_of : {py : Runtime} → Option (Client py) → List String
devices_of none = []
devices_of (some c) = c.known.known_devices

abbrev engines_of : Option (Dict EngineInfo) → Dict EngineInfo
engines_of none = []
engines_of (some engines) = engines

module _ {py : Runtime} {M : Manager} {Params : Type 0} where
  -- `_handle_device_control`
  unfoldable pub handle_device_control :
      World py Params → Command Params → ℕ → Engine py M Params → Engine py M Params
  handle_device_control w cmd conn e = reply_to w conn (device_reply w.show cmd e.client) e

  -- `_handle_capability_request`
  unfoldable pub handle_capability_request :
      World py Params → ℕ → Engine py M Params → Engine py M Params
  handle_capability_request w conn e =
      reply_to w conn
        (system
          (Reply.capability_response e.hub.identity e.name (devices_of e.client) e.capabilities))
        e

  -- `_handle_engine_list_request`
  unfoldable pub handle_engine_list_request :
      World py Params → ℕ → Engine py M Params → Engine py M Params
  handle_engine_list_request w conn e =
      reply_to w conn (system (Reply.engine_list_response (engines_of e.discovery))) e
