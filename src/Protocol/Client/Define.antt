-- ===== src/Protocol/Client/Define.antt =====
-- What the definition of a property does to the client.
use indi_engine.Base.{String, true, Option, none, some, ◌≡◌, arith, eq_iff, Option-cases, inl, inr}
use indi_engine.Base.Dict.{Dict, lookup, insert, has_key, lookup-insert}
use indi_engine.Base.Result.{ok}
use indi_engine.Protocol.Client.{Client, store_property, handle_def_property, register_device}
use indi_engine.Protocol.Client.Reconnect.{on_definition-devices}
use indi_engine.Protocol.Client.Registered.{Synced, register_device-has_key, created-named}
use indi_engine.Protocol.Known
use indi_engine.Protocol.Message.{Message}
use indi_engine.Protocol.Parser.Create.{create_property_from_message}
use indi_engine.Protocol.Properties.{Property, Device, has_elements}
use indi_engine.Protocol.Runtime.{Runtime}

module _ {py : Runtime} where
  abbrev of_device : String → Option (Device py) → Option (Property py)
  of_device property none = none
  of_device property (some d) = lookup property d.properties

  -- `getDevice(device).getProperty(property)`
  abbrev pub property_of : String → String → Dict (Device py) → Option (Property py)
  property_of device property ds = of_device property (lookup device ds)

  pub store_property-stored :
      (d q : String) (p : Property py) (c : Client py)
      → has_key d c.devices ≡ true
      → property_of d q (store_property d q p c).devices ≡ some p
  unfolding store_property
  store_property-stored d q p c there = elim (Option-cases (lookup d c.devices)) [
    | inl absent ↦ ground (arith, absent)
    | inr (dev, at) ↦ rw at (
        ground (
          arith,
          eq_iff d d,
          eq_iff q q,
          lookup-insert d d (record dev { properties = insert q p dev.properties }) c.devices,
          lookup-insert q q p dev.properties,
        ))
  ]

  -- A definition that yields a property with an element, in a client whose known devices are in its table, leaves that
  -- property in the device's table, whether the device and the property were known before or not.
  pub handle_def_property-stores :
      (m : Message py) (p : Property py) (c : Client py)
      → create_property_from_message py m ≡ ok (some p)
      → has_elements p ≡ true
      → Synced c
      → property_of m.device_name m.property_name (handle_def_property m c).1.devices ≡ some p
  unfolding handle_def_property
  handle_def_property-stores m p c made filled h =
      let c₁ = register_device m c in
      let c₂ = store_property m.device_name m.property_name p c₁ in
      let named = (created-named m p made).0 in
      rw (made, filled, on_definition-devices m p (Known.get_property_change m true c₁.known) c₂)
        (store_property-stored m.device_name m.property_name p c₁
          (register_device-has_key m c named h))
