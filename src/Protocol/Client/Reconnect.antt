-- ===== src/Protocol/Client/Reconnect.antt =====
-- A client that connects again: `connectServer` empties the table of devices, and leaves `KnownState`.
use indi_engine.Base.{
  Bool, true, not, Option, none, some, [], ◌≡◌, refl, arith, Bool-cases, inl, inr,
}
use indi_engine.Base.Dict.{lookup}
use indi_engine.Base.Result.{Result, ok, err}
use indi_engine.Protocol.Client.{
  Client, Event, store_property, with_created, after_add, on_definition, handle_def_property,
  register_device, update_state_manager, fire,
}
use indi_engine.Protocol.Client.Session.{connect_server, after_connect}
use indi_engine.Protocol.Known
use indi_engine.Protocol.Known.{
  ChangeType, new, updated, deleted, KnownState, get_device_change, is_device_known,
}
use indi_engine.Protocol.Message.{Message}
use indi_engine.Protocol.Parser.Create.{create_property_from_message}
use indi_engine.Protocol.Properties.{Property, has_elements}
use indi_engine.Protocol.Runtime.{Runtime}
use indi_engine.Transport.Reader
use indi_engine.Transport.Reader.{Transport}

module _ {py : Runtime} where
  connect_server-cleared :
      (succeeds : Bool) (c : Client py)
      → ((connect_server succeeds c).1.devices ≡ [])
        × ((connect_server succeeds c).1.known ≡ c.known)
  unfolding connect_server
  connect_server-cleared succeeds c = each (Reader.connect succeeds c.transport)
    where
      each :
          (r : Result Transport × Transport)
          → ((after_connect r (record c { devices = [] })).1.devices ≡ [])
            × ((after_connect r (record c { devices = [] })).1.known ≡ c.known)
      each (ok t', t) = (refl, refl)
      each (err e, t) = (refl, refl)

  pub on_definition-devices :
      (m : Message py) (p : Property py) (o : Option ChangeType) (c : Client py)
      → (on_definition m p o c).1.devices ≡ c.devices
  unfolding update_state_manager
  on_definition-devices m p none c = refl
  on_definition-devices m p (some new) c =
      each (Known.add_property m.device_name m.property_name c.known)
    where
      each :
          (r : Result (Unit {0}) × KnownState)
          → (after_add r c (λ c'.
              fire
                (Event.new_property p)
                (update_state_manager m.device_name m.property_name p c'))).1.devices
            ≡ c.devices
      each (ok u, k) = refl
      each (err e, k) = refl
  on_definition-devices m p (some updated) c = refl
  on_definition-devices m p (some deleted) c = refl

  old_device :
      (m : Message py) (c : Client py)
      → is_device_known m.device_name c.known ≡ true
      → register_device m c ≡ c
  unfolding register_device get_device_change is_device_known
  old_device m c known = ground (arith, known)

  handle_def_property-absent :
      (m : Message py) (c : Client py)
      → is_device_known m.device_name c.known ≡ true
      → lookup m.device_name c.devices ≡ none
      → (handle_def_property m c).1.devices ≡ c.devices
  unfolding handle_def_property store_property
  handle_def_property-absent m c known absent =
      rw (old_device m c known) (each (create_property_from_message py m))
    where
      each :
          (r : Result (Option (Property py)))
          → (with_created r c (λ p.
              on_definition m p
                (Known.get_property_change m true c.known)
                (store_property m.device_name m.property_name p c))).1.devices
            ≡ c.devices
      each (err e) = refl
      each (ok none) = refl
      each (ok (some p)) = elim (Bool-cases (not (has_elements p))) [
        | inl empty ↦ rw empty refl
        | inr filled ↦
            rw
              (
                filled,
                on_definition-devices m p (Known.get_property_change m true c.known) _,
                absent,
              )
              refl
      ]

  -- A device that the client knows before `connectServer` is in no table of devices afterwards, and a
  -- definition of one of its properties does not create it again: `getDevice` stays None for it.
  pub connect_server-loses :
      (succeeds : Bool) (m : Message py) (c : Client py)
      → is_device_known m.device_name c.known ≡ true
      → lookup m.device_name (handle_def_property m (connect_server succeeds c).1).1.devices ≡ none
  unfolding lookup
  connect_server-loses succeeds m c known =
      let (empty, same) = connect_server-cleared succeeds c in
      rw
        (
          handle_def_property-absent m (connect_server succeeds c).1 (rw same known)
              (rw empty refl),
          empty,
        )
        refl
