-- ===== src/Protocol/Client/Sync.antt =====
-- Every handler keeps the tables of the client in step.
use indi_engine.Base.{
  String, true, false, not, Option, none, some, ◌≡◌, refl, sym, ◌∙◌, arith, eq_iff, Bool-cases, inl,
  inr,
}
use indi_engine.Base.Dict.{lookup, has_key, lookup-insert, lookup-remove}
use indi_engine.Protocol.Constants.{MessageType}
use indi_engine.Protocol.Known
use indi_engine.Protocol.Known.{
  KnownState, ChangeType, new, updated, deleted, is_device_known, get_device_change,
}
use indi_engine.Protocol.Known.View.{remove_property-known, remove_device-known}
use indi_engine.Protocol.Message.{Message}
use indi_engine.Protocol.Parser.Create.{create_property_from_message}
use indi_engine.Protocol.Properties.{Property, Device, add_message}
use indi_engine.Protocol.Runtime.{Runtime}
use indi_engine.Protocol.Text.{truthy}
use indi_engine.Protocol.Client.{
  Client, Event, store_property, register_device, on_definition, on_update, on_deletion,
  drop_device, handle_def_property, handle_set_property, handle_set_blob, handle_del_property,
  handle_del_device, handle_message_event, handle_message, dispatch, tell_device,
}
use indi_engine.Protocol.Client.Registered.{
  Synced, store_property-has_key, register_device-Synced, store_property-Synced, after_add-Synced,
  update_state_manager-Synced, fire-Synced, with_created-Synced, created-named,
  register_device-has_key,
}

module _ {py : Runtime} where
  on_definition-Synced :
      (m : Message py) (p : Property py) (o : Option ChangeType) (c : Client py)
      → has_key m.device_name c.devices ≡ true
      → Synced c
      → Synced (on_definition m p o c).1
  on_definition-Synced m p none c there h = h
  on_definition-Synced m p (some new) c there h =
      after_add-Synced m.device_name m.property_name c _
        (λ c' h'.
          fire-Synced (Event.new_property p) _
            (update_state_manager-Synced m.device_name m.property_name p c' h'))
        there h
  on_definition-Synced m p (some updated) c there h =
      fire-Synced (Event.update_property p) _
        (update_state_manager-Synced m.device_name m.property_name p c h)
  on_definition-Synced m p (some deleted) c there h = h

  handle_def_property-Synced :
      (m : Message py) (c : Client py) → Synced c → Synced (handle_def_property m c).1
  unfolding handle_def_property
  handle_def_property-Synced m c h =
      let c₁ = register_device m c in
      let h₁ = register_device-Synced m c h in
      with_created-Synced (create_property_from_message py m) c₁ _ h₁ (λ p made.
        on_definition-Synced m p _ (store_property m.device_name m.property_name p c₁)
          (store_property-has_key m.device_name m.property_name m.device_name p c₁
            ∙ register_device-has_key m c (created-named m p made).0 h)
          (store_property-Synced m.device_name m.property_name p c₁ h₁))

  on_update-Synced :
      (m : Message py) (p : Property py) (o : Option ChangeType) (c : Client py)
      → Synced c
      → Synced (on_update m p o c).1
  on_update-Synced m p none c h = h
  on_update-Synced m p (some new) c h = h
  on_update-Synced m p (some updated) c h = fire-Synced (Event.update_property p) _ (
      update_state_manager-Synced m.device_name m.property_name p _
        (store_property-Synced m.device_name m.property_name p c h))
  on_update-Synced m p (some deleted) c h = h

  handle_set_property-Synced :
      (m : Message py) (c : Client py) → Synced c → Synced (handle_set_property m c).1
  unfolding handle_set_property
  handle_set_property-Synced m c h =
      with_created-Synced (create_property_from_message py m) c _ h
        (λ p made. on_update-Synced m p _ c h)

  handle_set_blob-Synced :
      (m : Message py) (c : Client py)
      → has_key m.device_name c.devices ≡ true
      → Synced c
      → Synced (handle_set_blob m c).1
  unfolding handle_set_blob
  handle_set_blob-Synced m c there h =
      with_created-Synced (create_property_from_message py m) c _ h (λ p made.
        after_add-Synced m.device_name m.property_name
          (store_property m.device_name m.property_name p c) _
          (λ c' h'. fire-Synced (Event.new_blob p) c' h')
          (store_property-has_key m.device_name m.property_name m.device_name p c ∙ there)
          (store_property-Synced m.device_name m.property_name p c h))

  handle_del_property-Synced :
      (m : Message py) (c : Client py) → Synced c → Synced (handle_del_property m c).1
  unfolding handle_del_property
  handle_del_property-Synced m c h = deleting (Known.get_property_change m false c.known)
    where
      forgotten : KnownState
      forgotten = Known.remove_property m.device_name m.property_name c.known

      deleting : (o : Option ChangeType) → Synced (on_deletion m o c)
      deleting none = h
      deleting (some new) = h
      deleting (some updated) = h
      deleting (some deleted) =
          let (step, devices, pairs) =
            remove_property-known m.device_name m.property_name c.known h.step in
          record { step = step; held = λ j known. h.held j (sym (devices j) ∙ known) }

  handle_del_device-Synced :
      (m : Message py) (c : Client py) → Synced c → Synced (handle_del_device m c).1
  unfolding handle_del_device
  handle_del_device-Synced m c h = dropping (lookup m.device_name c.devices)
    where
      dropping : (o : Option (Device py)) → Synced (drop_device m.device_name o c)
      dropping none = h
      dropping (some dev) =
          let (step, devices, pairs) = remove_device-known m.device_name c.known h.step in
          record {
            step = step;
            held = λ j known. ground (
              arith,
              h.held j,
              devices j,
              eq_iff m.device_name j,
              lookup-remove m.device_name j c.devices,
            );
          }

  tell_device-Synced :
      (d msg : String) (o : Option (Device py)) (c : Client py)
      → Synced c
      → Synced (tell_device d msg o c)
  tell_device-Synced d msg none c h = h
  tell_device-Synced d msg (some dev) c h = record {
    step = h.step;
    held = λ j known.
        ground (arith, h.held j, eq_iff d j, lookup-insert d j (add_message msg dev) c.devices);
  }

  handle_message_event-Synced :
      (m : Message py) (c : Client py) → Synced c → Synced (handle_message_event m c).1
  unfolding handle_message_event
  handle_message_event-Synced m c h = elim (Bool-cases (not (truthy m.device_name))) [
    | inl universal ↦ rw universal (fire-Synced _ c h)
    | inr named ↦ rw named (tell_device-Synced m.device_name _ _ c h)
  ]

  -- Every handler keeps the table of devices and the known names in step, if they are so
  -- before; a BLOB must come for a device that the client has.
  pub handle_message-Synced :
      (m : Message py) (c : Client py)
      → (m.message_type ≡ MessageType.set_blob → has_key m.device_name c.devices ≡ true)
      → Synced c
      → Synced (handle_message m c).1
  unfolding handle_message
  handle_message-Synced m c there h = each m.message_type there
    where
      each :
          (t : MessageType)
          → (t ≡ MessageType.set_blob → has_key m.device_name c.devices ≡ true)
          → Synced (dispatch t m c).1
      each MessageType.message b = handle_message_event-Synced m c h
      each MessageType.def_number b = handle_def_property-Synced m c h
      each MessageType.def_text b = handle_def_property-Synced m c h
      each MessageType.def_switch b = handle_def_property-Synced m c h
      each MessageType.def_light b = handle_def_property-Synced m c h
      each MessageType.def_blob b = handle_def_property-Synced m c h
      each MessageType.set_number b = handle_set_property-Synced m c h
      each MessageType.set_text b = handle_set_property-Synced m c h
      each MessageType.set_switch b = handle_set_property-Synced m c h
      each MessageType.set_light b = handle_set_property-Synced m c h
      each MessageType.set_blob b = handle_set_blob-Synced m c (b refl) h
      each MessageType.del_property b = handle_del_property-Synced m c h
      each MessageType.del_device b = handle_del_device-Synced m c h
      each MessageType.new_blob b = h
      each MessageType.unknown b = h
