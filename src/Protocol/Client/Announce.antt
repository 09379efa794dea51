-- ===== src/Protocol/Client/Announce.antt =====
-- What the handlers tell of a property: the callback they call, and the values they give to the
-- state manager.
use indi_engine.Base.{
  String, true, false, not, Option, none, some, [], ◌∷◌, ◌++◌, ◌≡◌, refl, ◌∙◌, arith, if◌then◌else◌,
  Bool-cases, inl, inr,
}
use indi_engine.Base.Dict.{Dict, has_key}
use indi_engine.Base.Result.{Result, ok, err, err-ne-ok}
use indi_engine.Protocol.Client.{
  Client, Event, store_property, handle_def_property, handle_set_property, register_device,
  on_device_change, enter_device, update_state_manager, after_add, fire, element_values,
  extract_value, write_value,
}
use indi_engine.Protocol.Client.Registered.{Synced, register_device-Synced, created-named}
use indi_engine.Protocol.Known
use indi_engine.Protocol.Known.{
  ChangeType, new, updated, deleted, KnownState, is_property_known, get_property_change,
  is_del_property,
}
use indi_engine.Protocol.Known.View.{add_device-known, add_property-known}
use indi_engine.Protocol.Message.{Message}
use indi_engine.Protocol.Parser.Create.{create_property_from_message, create_device_from_message}
use indi_engine.Protocol.Properties.{Value, Element, Property, Device, is_filled, has_elements}
use indi_engine.Protocol.Runtime.{Runtime}
use indi_engine.Protocol.Text.{truthy}
use indi_engine.State.{DeviceState}

module _ {py : Runtime} where
  -- A client without the callbacks of the server and the values of the state manager.
  abbrev pub stored_values :
      Message py → Property py → Client py → Option (DeviceState (Dict Value))
  stored_values m p c =
      write_value m.device_name m.property_name c.state_manager (some (element_values p.elements))

  abbrev pub announcement : Message py → Property py → Client py → Event py
  announcement m p c =
      if is_property_known m.device_name m.property_name c.known
      then Event.update_property p
      else Event.new_property p

  extract_value-some :
      (es : Dict (Element py)) → is_filled es ≡ true → extract_value es ≡ some (element_values es)
  unfolding extract_value
  extract_value-some [] filled = absurd (ground arith)
  extract_value-some (e ∷ es) filled = refl

  extract_value-filled :
      (p : Property py)
      → has_elements p ≡ true
      → extract_value p.elements ≡ some (element_values p.elements)
  unfolding has_elements
  extract_value-filled p filled = extract_value-some p.elements filled

  definition_change :
      (m : Message py) (k : KnownState)
      → truthy m.device_name ≡ true
      → truthy m.property_name ≡ true
      → is_del_property m.message_type ≡ false
      → get_property_change m true k
        ≡ some (if is_property_known m.device_name m.property_name k then updated else new)
  unfolding get_property_change is_property_known
  definition_change m k device property def = ground arith

  update_change :
      (m : Message py) (k : KnownState)
      → truthy m.device_name ≡ true
      → truthy m.property_name ≡ true
      → is_del_property m.message_type ≡ false
      → get_property_change m false k
        ≡ (if is_property_known m.device_name m.property_name k then some updated else none)
  unfolding get_property_change is_property_known
  update_change m k device property def = ground arith

  register_device-unstored :
      (m : Message py) (d q : String) (c : Client py)
      → (is_property_known d q (register_device m c).known ≡ is_property_known d q c.known)
        × ((register_device m c).state_manager ≡ c.state_manager)
  unfolding register_device
  register_device-unstored m d q c = changed (Known.get_device_change m c.known)
    where
      entered :
          (o : Option (Device py))
          → (is_property_known d q (enter_device m.device_name o c).known
              ≡ is_property_known d q c.known)
            × ((enter_device m.device_name o c).state_manager ≡ c.state_manager)
      entered none = (refl, refl)
      entered (some dev) = ((add_device-known m.device_name d q c.known).1, refl)

      changed :
          (o : Option ChangeType)
          → (is_property_known d q (on_device_change m o c).known ≡ is_property_known d q c.known)
            × ((on_device_change m o c).state_manager ≡ c.state_manager)
      changed none = (refl, refl)
      changed (some updated) = (refl, refl)
      changed (some deleted) = (refl, refl)
      changed (some new) = elim (Bool-cases (not (has_key m.device_name c.devices))) [
        | inl fresh ↦ rw fresh (entered (create_device_from_message py m))
        | inr old ↦ rw old (refl, refl)
      ]

  after_add-told :
      (m : Message py) (p : Property py) (c : Client py) (r : Result (Unit {0}) × KnownState)
      → has_elements p ≡ true
      → r.0 ≡ ok tt
      → let c' = after_add r c (λ c₁.
        fire (Event.new_property p) (update_state_manager m.device_name m.property_name p c₁)) in
        (c'.0 ≡ ok tt)
        × (c'.1.events ≡ c.events ++ Event.new_property p ∷ [])
        × (c'.1.state_manager ≡ stored_values m p c)
  unfolding update_state_manager
  after_add-told m p c (ok u, k) filled done = (refl, refl, rw (extract_value-filled p filled) refl)
  after_add-told m p c (err e, k) filled done = absurd (err-ne-ok done)

  -- A definition that yields a property with an element raises nothing and ends with one callback for
  -- that property: `newProperty` when the property was not known, `updateProperty` when it was; and the
  -- state manager, where there is one, has the values of its elements.
  pub handle_def_property-announces :
      (m : Message py) (p : Property py) (c : Client py)
      → create_property_from_message py m ≡ ok (some p)
      → has_elements p ≡ true
      → is_del_property m.message_type ≡ false
      → Synced c
      → let c' = handle_def_property m c in
        (c'.0 ≡ ok tt)
        × (c'.1.events ≡ (register_device m c).events ++ announcement m p c ∷ [])
        × (c'.1.state_manager ≡ stored_values m p c)
  unfolding handle_def_property store_property
  handle_def_property-announces m p c made filled def h =
      let (device, property) = created-named m p made in
      let c₁ = register_device m c in
      let c₂ = store_property m.device_name m.property_name p c₁ in
      let (same, values) = register_device-unstored m m.device_name m.property_name c in
      let h₁ = register_device-Synced m c h in
      let (done, events, kept) =
        after_add-told m p c₂ (Known.add_property m.device_name m.property_name c₁.known) filled
          (add_property-known m.device_name m.property_name c₁.known h₁.step).0 in
      elim (Bool-cases (is_property_known m.device_name m.property_name c.known)) [
        | inl old ↦
            rw (made, filled, definition_change m c₁.known device property def, same, old)
              (unfold update_state_manager in
                (refl, refl, rw (extract_value-filled p filled, values) refl))
        | inr fresh ↦
            rw (made, filled, definition_change m c₁.known device property def, same, fresh)
              (done, events, kept ∙ rw values refl)
      ]

  -- An update of a property that the client knows raises nothing, calls `updateProperty` and gives the
  -- values to the state manager; an update of a property that it does not know changes nothing.
  pub handle_set_property-announces :
      (m : Message py) (p : Property py) (c : Client py)
      → create_property_from_message py m ≡ ok (some p)
      → has_elements p ≡ true
      → is_del_property m.message_type ≡ false
      → let c' = handle_set_property m c in
        (is_property_known m.device_name m.property_name c.known ≡ true
          → (c'.0 ≡ ok tt)
            × (c'.1.events ≡ c.events ++ Event.update_property p ∷ [])
            × (c'.1.state_manager ≡ stored_values m p c)
            × (c'.1.known ≡ c.known))
        × (is_property_known m.device_name m.property_name c.known ≡ false → c' ≡ (ok tt, c))
  unfolding handle_set_property store_property update_state_manager
  handle_set_property-announces m p c made filled def =
      let (device, property) = created-named m p made in
      (
        λ old.
            rw (made, filled, update_change m c.known device property def, old)
              (refl, refl, rw (extract_value-filled p filled) refl, refl),
        λ fresh. rw (made, filled, update_change m c.known device property def, fresh) refl,
      )
