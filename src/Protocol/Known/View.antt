-- ===== src/Protocol/Known/View.antt =====
-- `KnownState` against two sets: the known devices, and the known pairs of a device and a property.
use indi_engine.Base.{
  String, true, not, ◌&&◌, ◌||◌, some, List, [], ◌≡◌, refl, sym, ◌∙◌, arith, ◌==◌, eq_iff,
  Bool-cases, Option-cases, inl, inr,
}
use indi_engine.Base.Dict.{Dict, lookup, has_key, lookup-insert, lookup-remove}
use indi_engine.Base.Names.{member, add, discard, member-add, member-discard}
use indi_engine.Base.Result.{ok}
use indi_engine.Protocol.Known.{
  KnownState, init, is_device_known, is_property_known, add_device, ensure_device, add_name,
  add_property, remove_property, remove_device,
}

-- A device has a set of properties exactly when it is known.
pub record InStep (k : KnownState) : Type 0 where
  pub same : (d : String) → is_device_known d k ≡ has_key d k.known_properties

pub init-InStep : InStep init
unfolding is_device_known lookup member
init-InStep = record { same = λ d. refl }

pub add_device-InStep : (d : String) (k : KnownState) → InStep k → InStep (add_device d k)
unfolding add_device is_device_known
add_device-InStep d k h = record {
  same = λ j. ground (
    arith,
    h.same j,
    h.same d,
    eq_iff d j,
    member-add d j k.known_devices,
    lookup-insert d j [] k.known_properties,
  );
}

has_key-some :
    {V : Type 0} (k : String) (d : Dict V) → has_key k d ≡ true → (v : V) × (lookup k d ≡ some v)
has_key-some k d h = ground arith

-- `add_device` adds the device, and no property.
pub add_device-known :
    (d j q : String) (k : KnownState)
    → (is_device_known j (add_device d k) ≡ (d == j || is_device_known j k))
      × (is_property_known j q (add_device d k) ≡ is_property_known j q k)
unfolding add_device is_device_known is_property_known member
add_device-known d j q k = (
  member-add d j k.known_devices,
  ground (arith, eq_iff d j, lookup-insert d j [] k.known_properties),
)

ensure_device-known :
    (d : String) (k : KnownState)
    → InStep k
    → InStep (ensure_device d k)
      × ((j : String) → is_device_known j (ensure_device d k) ≡ (d == j || is_device_known j k))
      × ((j q : String) → is_property_known j q (ensure_device d k) ≡ is_property_known j q k)
unfolding ensure_device is_device_known
ensure_device-known d k h = elim (Bool-cases (member d k.known_devices)) [
  | inl old ↦ rw old (h, λ j. ground (arith, eq_iff d j), λ j q. refl)
  | inr fresh ↦ rw fresh (
    add_device-InStep d k h,
    λ j. (add_device-known d j j k).0,
    λ j q. (add_device-known d j q k).1,
  )
]

-- The part of `add_property` behind the registration of the device.
add_name-known :
    (d p : String) (ps : List String) (k : KnownState)
    → lookup d k.known_properties ≡ some ps
    → InStep k
    → ((add_name d p (some ps) k).0 ≡ ok tt)
      × InStep (add_name d p (some ps) k).1
      × ((j : String) → is_device_known j (add_name d p (some ps) k).1 ≡ is_device_known j k)
      × ((j q : String)
          → is_property_known j q (add_name d p (some ps) k).1
            ≡ (d == j && p == q || is_property_known j q k))
unfolding is_property_known is_device_known
add_name-known d p ps k at h = (
  refl,
  record {
    same = λ j.
        ground (arith, h.same j, at, eq_iff d j, lookup-insert d j (add p ps) k.known_properties);
  },
  λ j. refl,
  λ j q.
      ground
        (arith, at, eq_iff d j, member-add p q ps, lookup-insert d j (add p ps) k.known_properties),
)

-- With the two tables in step, the device known or not, `add_property` does not raise KeyError; it
-- adds the device and the pair and nothing else, and keeps the tables in step.
pub add_property-known :
    (d p : String) (k : KnownState)
    → InStep k
    → ((add_property d p k).0 ≡ ok tt)
      × InStep (add_property d p k).1
      × ((j : String) → is_device_known j (add_property d p k).1 ≡ (d == j || is_device_known j k))
      × ((j q : String)
          → is_property_known j q (add_property d p k).1
            ≡ (d == j && p == q || is_property_known j q k))
unfolding add_property
add_property-known d p k h =
    let k' = ensure_device d k in
    let (step, devices, pairs) = ensure_device-known d k h in
    let here : is_device_known d k' ≡ true = devices d ∙ rw ((eq_iff d d).1 refl) in
    let (ps, at) = has_key-some d k'.known_properties (sym (step.same d) ∙ here) in
    let (done, step', devices', pairs') = add_name-known d p ps k' at step in
    rw at (done, step', λ j. devices' j ∙ devices j, λ j q. pairs' j q ∙ rw (pairs j q))

-- `remove_property` removes the pair and nothing else.
pub remove_property-known :
    (d p : String) (k : KnownState)
    → InStep k
    → InStep (remove_property d p k)
      × ((j : String) → is_device_known j (remove_property d p k) ≡ is_device_known j k)
      × ((j q : String)
          → is_property_known j q (remove_property d p k)
            ≡ (not (d == j && p == q) && is_property_known j q k))
unfolding remove_property is_property_known is_device_known
remove_property-known d p k h = elim (Option-cases (lookup d k.known_properties)) [
  | inl absent ↦ rw absent (h, λ j. refl, λ j q. ground (arith, absent, eq_iff d j))
  | inr (ps, at) ↦ rw at (
    record {
      same = λ j.
          ground
            (arith, h.same j, at, eq_iff d j, lookup-insert d j (discard p ps) k.known_properties);
    },
    λ j. refl,
    λ j q. ground (
      arith,
      at,
      eq_iff d j,
      member-discard p q ps,
      lookup-insert d j (discard p ps) k.known_properties,
    ),
  )
]

-- `remove_device` removes the device and all its pairs and nothing else.
pub remove_device-known :
    (d : String) (k : KnownState)
    → InStep k
    → InStep (remove_device d k)
      × ((j : String)
          → is_device_known j (remove_device d k) ≡ (not (d == j) && is_device_known j k))
      × ((j q : String)
          → is_property_known j q (remove_device d k) ≡ (not (d == j) && is_property_known j q k))
unfolding remove_device is_property_known is_device_known
remove_device-known d k h = (
  record {
    same = λ j. ground (
      arith,
      h.same j,
      eq_iff d j,
      member-discard d j k.known_devices,
      lookup-remove d j k.known_properties,
    );
  },
  λ j. member-discard d j k.known_devices,
  λ j q. ground (arith, eq_iff d j, lookup-remove d j k.known_properties),
)
