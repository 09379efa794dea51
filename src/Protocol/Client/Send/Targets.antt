-- ===== src/Protocol/Client/Send/Targets.antt =====
-- What the commands change in the client besides what they send.
use indi_engine.Base.{
  String, ◌&&◌, Option, none, some, ◌≡◌, arith, if◌then◌else◌, ◌==◌, eq_iff, Option-cases, inl, inr,
}
use indi_engine.Base.Dict.{Dict, lookup, insert, lookup-insert}
use indi_engine.Protocol.Client.{Client}
use indi_engine.Protocol.Client.Define.{property_of}
use indi_engine.Protocol.Client.Send.{set_target, aim_element}
use indi_engine.Protocol.Properties.{Value, Element, Property, Device}
use indi_engine.Protocol.Runtime.{Runtime}

module _ {py : Runtime} where
  abbrev pub of_property : String → Option (Property py) → Option (Element py)
  of_property elem none = none
  of_property elem (some p) = lookup elem p.elements

  -- `getDevice(device).getProperty(name).elements.get(elem)`
  abbrev pub element_of : String → String → String → Dict (Device py) → Option (Element py)
  element_of device name elem ds = of_property elem (property_of device name ds)

  abbrev pub aimed : Value → Option (Element py) → Option (Element py)
  aimed v none = none
  aimed v (some e) = some (record e { target_value = some v })

  aim_element-aimed :
      (e i : String) (v : Value) (es : Dict (Element py))
      → lookup i (aim_element e v (lookup e es) es)
        ≡ (if e == i then aimed v (lookup i es) else lookup i es)
  aim_element-aimed e i v es = elim (Option-cases (lookup e es)) [
    | inl absent ↦ rw absent (ground (arith, absent, eq_iff e i))
    | inr (el, here) ↦ rw here (
        ground
          (arith, here, eq_iff e i, lookup-insert e i (record el { target_value = some v }) es))
  ]

  -- `cached_elem.target_value = v` changes the target of the one element that the three names give, if
  -- the client has it, and no other element.
  pub element_of-set_target :
      (d q e j r i : String) (v : Value) (c : Client py)
      → element_of j r i (set_target d q e v c).devices ≡ (
          if d == j && q == r && e == i
          then aimed v (element_of j r i c.devices)
          else element_of j r i c.devices)
  unfolding set_target
  element_of-set_target d q e j r i v c = elim (Option-cases (lookup d c.devices)) [
    | inl absent ↦ rw absent (ground (arith, absent, eq_iff d j))
    | inr (dev, at) ↦ elim (Option-cases (lookup q dev.properties)) [
      | inl absent ↦
          rw (at, absent)
            (ground (arith, at, absent, eq_iff d j, eq_iff q r, lookup-insert d j dev c.devices))
      | inr (p, there) ↦
          let p' : Property py = record p {
            elements = aim_element e v (lookup e p.elements) p.elements;
          } in
          let dev' : Device py = record dev { properties = insert q p' dev.properties } in
          rw (at, there)
            (ground (
              arith,
              at,
              there,
              eq_iff d j,
              eq_iff q r,
              lookup-insert d j dev' c.devices,
              lookup-insert q r p' dev.properties,
              aim_element-aimed e i v p.elements,
            ))
    ]
  ]
