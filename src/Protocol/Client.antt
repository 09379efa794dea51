-- ===== src/Protocol/Client.antt =====
-- `PurePythonIndiClient` of indi_engine/indi/protocol/client.py: its state, and the handlers of the
-- messages that the server sends. A callback is an event at the end of the log of events; a handler
-- that raises keeps what it has written before.
pub mod Announce
pub mod Define
pub mod Reconnect
pub mod Send
pub mod Session
pub mod Set
pub mod Registered
pub mod Sync
use indi_engine.Base.{
  ℕ, String, Bool, true, false, not, Option, none, some, List, [], ◌∷◌, ◌++◌, if◌then◌else◌,
}
use indi_engine.Base.Dict.{Dict, lookup, insert, remove, has_key}
use indi_engine.Base.Result.{Result, ok, err, Raised}
use indi_engine.Protocol.Constants.{
  MessageType, PropertyType, PropertyState, PropertyPerm, SwitchRule,
}
use indi_engine.Protocol.Known
use indi_engine.Protocol.Known.{KnownState, ChangeType, new, updated, deleted}
use indi_engine.Protocol.Message.{Message}
use indi_engine.Protocol.Parser.{parse_message, or_default}
use indi_engine.Protocol.Parser.Create.{create_property_from_message, create_device_from_message}
use indi_engine.Protocol.Properties.{Value, Element, Property, Device, add_message, has_elements}
use indi_engine.Protocol.Runtime.{Runtime}
use indi_engine.Protocol.Text.{truthy}
use indi_engine.State
use indi_engine.State.{DeviceState}
use indi_engine.Transport.Bytes.{Bytes}
use indi_engine.Transport.Reader
use indi_engine.Transport.Reader.{Transport}

pub data Event (py : Runtime) : Type 0 where
  server_connected : Event py
  server_disconnected : ℕ → Event py
  new_device : Device py → Event py
  remove_device : Device py → Event py
  new_property : Property py → Event py
  update_property : Property py → Event py
  remove_property : Property py → Event py
  new_message : Device py → String → Event py
  new_universal_message : String → Event py
  new_blob : Property py → Event py

pub record Client (py : Runtime) : Type 0 where
  pub devices : Dict (Device py)
  pub known : KnownState
  pub state_manager : Option (DeviceState (Dict Value))
  pub transport : Transport
  pub reader_running : Bool
  pub events : List (Event py)

abbrev pub write_value :
    String
    → String
    → Option (DeviceState (Dict Value))
    → Option (Dict Value)
    → Option (DeviceState (Dict Value))
write_value device property none v = none
write_value device property (some s) none = some s
write_value device property (some s) (some v) = some (State.update device property v s)

module _ {py : Runtime} where
  abbrev pub fire : Event py → Client py → Client py
  fire e c = record c { events = c.events ++ e ∷ [] }

  abbrev pub element_values : Dict (Element py) → Dict Value
  element_values [] = []
  element_values ((k, e) ∷ es) = (k, e.value) ∷ element_values es

  -- `_extract_value`
  unfoldable pub extract_value : Dict (Element py) → Option (Dict Value)
  extract_value [] = none
  extract_value (e ∷ es) = some (element_values (e ∷ es))

  -- `_update_state_manager`
  unfoldable pub update_state_manager : String → String → Property py → Client py → Client py
  update_state_manager device property p c = record c {
    state_manager = write_value device property c.state_manager (extract_value p.elements);
  }

  abbrev pub with_property :
      String → String → Property py → Option (Device py) → Dict (Device py) → Dict (Device py)
  with_property device property p none ds = ds
  with_property device property p (some d) ds =
      insert device (record d { properties = insert property p d.properties }) ds

  -- `device.properties[property_name] = prop`, if the device is there
  unfoldable pub store_property : String → String → Property py → Client py → Client py
  store_property device property p c = record c {
    devices = with_property device property p (lookup device c.devices) c.devices;
  }

  abbrev pub enter_device : String → Option (Device py) → Client py → Client py
  enter_device device none c = c
  enter_device device (some d) c =
      fire (new_device d)
        (record c { devices = insert device d c.devices; known = Known.add_device device c.known })

  abbrev pub on_device_change : Message py → Option ChangeType → Client py → Client py
  on_device_change m (some new) c =
      if not (has_key m.device_name c.devices)
      then enter_device m.device_name (create_device_from_message py m) c
      else c
  on_device_change m _ c = c

  -- The first part of `_handle_def_property`: a new device is created, entered and announced.
  unfoldable pub register_device : Message py → Client py → Client py
  register_device m c = on_device_change m (Known.get_device_change m c.known) c

  -- `self._state.add_property(…)`, which may raise, and what follows it
  abbrev pub after_add :
      Result (Unit {0}) × KnownState
      → Client py
      → (Client py → Client py)
      → Result (Unit {0}) × Client py
  after_add (err e, k) c rest = (err e, record c { known = k })
  after_add (ok u, k) c rest = (ok tt, rest (record c { known = k }))

  abbrev pub on_definition :
      Message py → Property py → Option ChangeType → Client py → Result (Unit {0}) × Client py
  on_definition m p (some new) c =
      after_add (Known.add_property m.device_name m.property_name c.known) c
        (λ c'. fire (new_property p) (update_state_manager m.device_name m.property_name p c'))
  on_definition m p (some updated) c =
      (ok tt, fire (update_property p) (update_state_manager m.device_name m.property_name p c))
  on_definition m p _ c = (ok tt, c)

  -- `if not prop: return`, for a property just made from the message
  abbrev pub with_created :
      Result (Option (Property py))
      → Client py
      → (Property py → Result (Unit {0}) × Client py)
      → Result (Unit {0}) × Client py
  with_created (err e) c rest = (err e, c)
  with_created (ok none) c rest = (ok tt, c)
  with_created (ok (some p)) c rest = if not (has_elements p) then (ok tt, c) else rest p

  -- `_handle_def_property`
  unfoldable pub handle_def_property : Message py → Client py → Result (Unit {0}) × Client py
  handle_def_property m c =
      let c₁ = register_device m c in
      with_created (create_property_from_message py m) c₁ (λ p.
        on_definition m p (Known.get_property_change m true c₁.known)
          (store_property m.device_name m.property_name p c₁))

  abbrev pub on_update :
      Message py → Property py → Option ChangeType → Client py → Result (Unit {0}) × Client py
  on_update m p (some updated) c = (
    ok tt,
    fire (update_property p) (
        update_state_manager m.device_name m.property_name p
          (store_property m.device_name m.property_name p c)),
  )
  on_update m p _ c = (ok tt, c)

  -- `_handle_set_property`
  unfoldable pub handle_set_property : Message py → Client py → Result (Unit {0}) × Client py
  handle_set_property m c =
      with_created (create_property_from_message py m) c
        (λ p. on_update m p (Known.get_property_change m false c.known) c)

  -- `_handle_set_blob`
  unfoldable pub handle_set_blob : Message py → Client py → Result (Unit {0}) × Client py
  handle_set_blob m c = with_created (create_property_from_message py m) c (λ p.
      let c₁ = store_property m.device_name m.property_name p c in
      after_add (Known.add_property m.device_name m.property_name c₁.known) c₁
        (λ c₂. fire (new_blob p) c₂))

  -- `IProperty(device_name=…, name=…)`
  abbrev pub bare_property : String → String → Property py
  bare_property device property = record {
    device_name = device;
    name = property;
    type = PropertyType.unknown;
    state = PropertyState.idle;
    perm = PropertyPerm.rw;
    timestamp = none;
    label = "";
    group = "";
    rule = SwitchRule.unknown;
    elements = [];
  }

  abbrev pub on_deletion : Message py → Option ChangeType → Client py → Client py
  on_deletion m (some deleted) c =
      fire (remove_property (bare_property m.device_name m.property_name))
        (record c { known = Known.remove_property m.device_name m.property_name c.known })
  on_deletion m _ c = c

  -- `_handle_del_property`
  unfoldable pub handle_del_property : Message py → Client py → Result (Unit {0}) × Client py
  handle_del_property m c = (ok tt, on_deletion m (Known.get_property_change m false c.known) c)

  abbrev pub drop_device : String → Option (Device py) → Client py → Client py
  drop_device device none c = c
  drop_device device (some d) c =
      fire (remove_device d)
        (record c { devices = remove device c.devices; known = Known.remove_device device c.known })

  -- `_handle_del_device`
  unfoldable pub handle_del_device : Message py → Client py → Result (Unit {0}) × Client py
  handle_del_device m c = (ok tt, drop_device m.device_name (lookup m.device_name c.devices) c)

  abbrev pub tell_device : String → String → Option (Device py) → Client py → Client py
  tell_device device msg none c = c
  tell_device device msg (some d) c =
      let d' = add_message msg d in
      fire (new_message d' msg) (record c { devices = insert device d' c.devices })

  -- `_handle_message_event`
  unfoldable pub handle_message_event : Message py → Client py → Result (Unit {0}) × Client py
  handle_message_event m c =
      let msg = or_default m.contents.message "" in
      if not (truthy m.device_name)
      then (ok tt, fire (new_universal_message msg) c)
      else (ok tt, tell_device m.device_name msg (lookup m.device_name c.devices) c)

  abbrev pub dispatch : MessageType → Message py → Client py → Result (Unit {0}) × Client py
  dispatch MessageType.message m c = handle_message_event m c
  dispatch MessageType.def_number m c = handle_def_property m c
  dispatch MessageType.def_text m c = handle_def_property m c
  dispatch MessageType.def_switch m c = handle_def_property m c
  dispatch MessageType.def_light m c = handle_def_property m c
  dispatch MessageType.def_blob m c = handle_def_property m c
  dispatch MessageType.set_number m c = handle_set_property m c
  dispatch MessageType.set_text m c = handle_set_property m c
  dispatch MessageType.set_switch m c = handle_set_property m c
  dispatch MessageType.set_light m c = handle_set_property m c
  dispatch MessageType.set_blob m c = handle_set_blob m c
  dispatch MessageType.del_property m c = handle_del_property m c
  dispatch MessageType.del_device m c = handle_del_device m c
  dispatch MessageType.new_blob m c = (ok tt, c)
  dispatch MessageType.unknown m c = (ok tt, c)

  -- `_handle_message`
  unfoldable pub handle_message : Message py → Client py → Result (Unit {0}) × Client py
  handle_message m c = dispatch m.message_type m c

  abbrev pub handle_parsed : Result (Option (Message py)) → Client py → Client py
  handle_parsed (ok (some m)) c = (handle_message m c).1
  handle_parsed _ c = c

  -- One round of `_process_messages` that takes `message_bytes` from the queue; an exception is
  -- logged and ends its own message only.
  unfoldable pub process_message : Bytes → Client py → Client py
  process_message [] c = c
  process_message (b ∷ message_bytes) c = handle_parsed (parse_message py (b ∷ message_bytes)) c

  unfoldable pub process_messages : List Bytes → Client py → Client py
  process_messages [] c = c
  process_messages (msg ∷ msgs) c = process_messages msgs (process_message msg c)
