-- ===== src/Protocol/Client/Set.antt =====
-- What a set message does to the client.
use indi_engine.Base.{
  String, true, false, none, some, [], ◌∷◌, ◌++◌, ◌≡◌, refl, ap, ◌∙◌, sym, arith,
}
use indi_engine.Base.Dict.{lookup, has_key}
use indi_engine.Base.Result.{ok}
use indi_engine.Protocol.Client.{
  Client, Event, handle_set_property, on_update, store_property, update_state_manager,
}
use indi_engine.Protocol.Client.Define.{property_of, store_property-stored}
use indi_engine.Protocol.Client.Registered.{created-named}
use indi_engine.Protocol.Client.Send.Targets.{element_of, of_property}
use indi_engine.Protocol.Known
use indi_engine.Protocol.Known.{updated, is_del_property, is_property_known}
use indi_engine.Protocol.Message.{Message}
use indi_engine.Protocol.Parser.Create.{create_property_from_message}
use indi_engine.Protocol.Parser.Created.{create_property_from_message-BelongsAt}
use indi_engine.Protocol.Properties.{Element, Property, has_elements}
use indi_engine.Protocol.Runtime.{Runtime}

module _ {py : Runtime} where
  is_updated :
      (m : Message py) (p : Property py) (k : Known.KnownState)
      → create_property_from_message py m ≡ ok (some p)
      → is_del_property m.message_type ≡ false
      → is_property_known m.device_name m.property_name k ≡ true
      → Known.get_property_change m false k ≡ some updated
  unfolding Known.get_property_change is_property_known
  is_updated m p k made kind known =
      let (device, property) = created-named m p made in
      ground (arith, device, property, kind, known)

  -- A set message that yields a property with an element, of a property that the client knows and whose
  -- device is in its table, announces that property and leaves it in the device's table; none of its
  -- elements has a target there, whatever was commanded before.
  pub handle_set_property-forgets :
      (m : Message py) (p : Property py) (c : Client py) (i : String) (e : Element py)
      → create_property_from_message py m ≡ ok (some p)
      → has_elements p ≡ true
      → is_del_property m.message_type ≡ false
      → is_property_known m.device_name m.property_name c.known ≡ true
      → has_key m.device_name c.devices ≡ true
      → element_of m.device_name m.property_name i (handle_set_property m c).1.devices ≡ some e
      → let c' = (handle_set_property m c).1 in
        (c'.events ≡ c.events ++ Event.update_property p ∷ [])
        × (property_of m.device_name m.property_name c'.devices ≡ some p)
        × (e.target_value ≡ none)
  unfolding handle_set_property update_state_manager store_property
  handle_set_property-forgets m p c i e made filled kind known there at =
      let stored = store_property-stored m.device_name m.property_name p c there in
      let o = is_updated m p c.known made kind known in
      let done : (handle_set_property m c) ≡ on_update m p (some updated) c =
        rw (made, filled, o) refl in
      let c' = (handle_set_property m c).1 in
      let written : property_of m.device_name m.property_name c'.devices ≡ some p =
        ap (λ r. property_of m.device_name m.property_name r.1.devices) done ∙ stored in
      let element : lookup i p.elements ≡ some e = sym (ap (of_property i) written) ∙ at in
      let (device, property, all) = create_property_from_message-BelongsAt py m p made in
      let belongs = all i e element in (ap (λ r. r.1.events) done, written, belongs.untargeted)
