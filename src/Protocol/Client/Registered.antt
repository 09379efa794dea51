-- ===== src/Protocol/Client/Registered.antt =====
-- What keeps the tables of the client in step: storing a property, and entering a device.
use indi_engine.Base.{
  String, true, false, not, ◌||◌, Option, none, some, ◌≡◌, refl, ◌∙◌, arith, ◌==◌, eq_iff,
  Bool-cases, Option-cases, inl, inr,
}
use indi_engine.Base.Dict.{lookup, insert, has_key, lookup-insert}
use indi_engine.Base.Result.{Result, ok, err, err-ne-ok}
use indi_engine.Protocol.Known
use indi_engine.Protocol.Known.{
  KnownState, ChangeType, new, updated, deleted, is_device_known, get_device_change,
}
use indi_engine.Protocol.Known.View.{
  InStep, add_device-InStep, add_device-known, add_property-known,
}
use indi_engine.Protocol.Message.{Message}
use indi_engine.Protocol.Parser.Create.{create_property_from_message, create_device_from_message}
use indi_engine.Protocol.Properties.{Property, Device, has_elements}
use indi_engine.Protocol.Runtime.{Runtime}
use indi_engine.Protocol.Text.{truthy}
use indi_engine.Protocol.Client.{
  Client, Event, store_property, register_device, on_device_change, enter_device,
  update_state_manager, with_created, after_add, fire,
}

module _ {py : Runtime} where
  -- Every known device is in the table of devices, and the tables of `KnownState` are in step.
  pub record Synced (c : Client py) : Type 0 where
    pub step : InStep c.known
    pub held : (d : String) → is_device_known d c.known ≡ true → has_key d c.devices ≡ true

  pub store_property-has_key :
      (d p j : String) (prop : Property py) (c : Client py)
      → has_key j (store_property d p prop c).devices ≡ has_key j c.devices
  unfolding store_property
  store_property-has_key d p j prop c = elim (Option-cases (lookup d c.devices)) [
    | inl absent ↦ rw absent
    | inr (dev, at) ↦ rw at (
        ground (
          arith,
          at,
          eq_iff d j,
          lookup-insert d j (record dev { properties = insert p prop dev.properties }) c.devices,
        ))
  ]

  enter_device-Synced :
      (d : String) (o : Option (Device py)) (c : Client py) → Synced c → Synced (enter_device d o c)
  enter_device-Synced d none c h = h
  enter_device-Synced d (some dev) c h = record {
    step = add_device-InStep d c.known h.step;
    held = λ j known. ground (
      arith,
      h.held j,
      eq_iff d j,
      (add_device-known d j j c.known).0,
      lookup-insert d j dev c.devices,
    );
  }

  pub register_device-Synced :
      (m : Message py) (c : Client py) → Synced c → Synced (register_device m c)
  unfolding register_device
  register_device-Synced m c h = changed (Known.get_device_change m c.known)
    where
      changed : (o : Option ChangeType) → Synced (on_device_change m o c)
      changed (some new) = elim (Bool-cases (not (has_key m.device_name c.devices))) [
        | inl fresh ↦ rw fresh (enter_device-Synced m.device_name _ c h)
        | inr old ↦ rw old h
      ]
      changed (some updated) = h
      changed (some deleted) = h
      changed none = h

  -- A client that knows the same names and has devices under the same names.
  Synced-same :
      (c c' : Client py)
      → c'.known ≡ c.known
      → ((j : String) → has_key j c'.devices ≡ has_key j c.devices)
      → Synced c
      → Synced c'
  Synced-same c c' k d h = record {
    step = rw k h.step;
    held = λ j known. d j ∙ h.held j (rw k at known);
  }

  pub store_property-Synced :
      (d p : String) (prop : Property py) (c : Client py)
      → Synced c
      → Synced (store_property d p prop c)
  store_property-Synced d p prop c h =
      Synced-same c (store_property d p prop c) (unfold store_property in refl)
        (λ j. store_property-has_key d p j prop c) h

  pub after_add-Synced :
      (d p : String) (c : Client py) (rest : Client py → Client py)
      → ((c' : Client py) → Synced c' → Synced (rest c'))
      → has_key d c.devices ≡ true
      → Synced c
      → Synced (after_add (Known.add_property d p c.known) c rest).1
  after_add-Synced d p c rest keep there h =
      let (done, step, devices, pairs) = add_property-known d p c.known h.step in
      added (Known.add_property d p c.known) done step devices
    where
      added :
          (r : Result (Unit {0}) × KnownState)
          → r.0 ≡ ok tt
          → InStep r.1
          → ((j : String) → is_device_known j r.1 ≡ (d == j || is_device_known j c.known))
          → Synced (after_add r c rest).1
      added (ok u, k) done step devices =
          keep (record c { known = k })
            (record {
              step = step;
              held = λ j known. ground (arith, h.held j, devices j, eq_iff d j, there);
            })
      added (err e, k) done step devices = absurd (err-ne-ok done)

  pub update_state_manager-Synced :
      (d p : String) (prop : Property py) (c : Client py)
      → Synced c
      → Synced (update_state_manager d p prop c)
  unfolding update_state_manager
  update_state_manager-Synced d p prop c h =
      Synced-same c (update_state_manager d p prop c) refl (λ j. refl) h

  pub fire-Synced : (e : Event py) (c : Client py) → Synced c → Synced (fire e c)
  fire-Synced e c h = Synced-same c (fire e c) refl (λ j. refl) h

  pub with_created-Synced :
      (r : Result (Option (Property py))) (c : Client py)
      (rest : Property py → Result (Unit {0}) × Client py)
      → Synced c
      → ((p : Property py) → r ≡ ok (some p) → Synced (rest p).1)
      → Synced (with_created r c rest).1
  with_created-Synced (err e) c rest h keep = h
  with_created-Synced (ok none) c rest h keep = h
  with_created-Synced (ok (some p)) c rest h keep = elim (Bool-cases (not (has_elements p))) [
    | inl empty ↦ rw empty h
    | inr filled ↦ rw filled (keep p refl)
  ]

  -- A created property comes from a message with both names.
  pub created-named :
      (m : Message py) (p : Property py)
      → create_property_from_message py m ≡ ok (some p)
      → (truthy m.device_name ≡ true) × (truthy m.property_name ≡ true)
  unfolding create_property_from_message
  created-named m p h =
      elim (Bool-cases (not (truthy m.device_name) || not (truthy m.property_name))) [
        | inl nameless ↦ absurd (nothing (rw nameless at h))
        | inr named ↦ ground arith
      ]
    where
      nothing : ◌≡◌ {A = Result (Option (Property py))} (ok none) (ok (some p)) → ⊥
      nothing x = cc

  enter_device-has_key :
      (d : String) (dev : Device py) (c : Client py)
      → has_key d (enter_device d (some dev) c).devices ≡ true
  enter_device-has_key d dev c = ground (arith, eq_iff d d, lookup-insert d d dev c.devices)

  pub register_device-has_key :
      (m : Message py) (c : Client py)
      → truthy m.device_name ≡ true
      → Synced c
      → has_key m.device_name (register_device m c).devices ≡ true
  unfolding register_device get_device_change create_device_from_message is_device_known
  register_device-has_key m c named h = elim (Bool-cases (is_device_known m.device_name c.known)) [
    | inl old ↦ ground (arith, named, old, h.held m.device_name old)
    | inr fresh ↦ elim (Bool-cases (has_key m.device_name c.devices)) [
      | inl there ↦ ground (arith, named, fresh, there)
      | inr absent ↦ rw (changed fresh, absent, named) (enter_device-has_key m.device_name _ c)
    ]
  ]
    where
      changed :
          is_device_known m.device_name c.known ≡ false → get_device_change m c.known ≡ some new
      changed fresh = rw (named, fresh) refl
