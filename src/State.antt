-- ===== src/State.antt =====
-- `DeviceStateManager` of indi_engine/state/manager.py: the last value of every property of every
-- device. Its lock makes each method one step.
use indi_engine.Base.{
  String, Option, none, some, [], ◌≡◌, refl, arith, ◌&&◌, if◌then◌else◌, ◌==◌, eq_iff, Option-cases,
  inl, inr,
}
use indi_engine.Base.Dict.{Dict, lookup, insert, remove, lookup-insert, lookup-remove}

abbrev pub DeviceState : Type 0 → Type 0
DeviceState V = Dict (Dict V)

module _ {V : Type 0} where
  abbrev pub or_empty : Option (Dict V) → Dict V
  or_empty none = []
  or_empty (some d) = d

  -- `update`
  unfoldable pub update : String → String → V → DeviceState V → DeviceState V
  update device property value s =
      insert device (insert property value (or_empty (lookup device s))) s

  abbrev pop_from : String → String → Option (Dict V) → DeviceState V → DeviceState V
  pop_from device property none s = s
  pop_from device property (some d) s = insert device (remove property d) s

  -- `remove`
  unfoldable pub remove_property : String → String → DeviceState V → DeviceState V
  remove_property device property s = pop_from device property (lookup device s) s

  -- `get_device`
  unfoldable pub get_device : String → DeviceState V → Dict V
  get_device device s = or_empty (lookup device s)

  -- The value that a client reads for a property.
  abbrev pub value_of : String → String → DeviceState V → Option V
  value_of device property s = lookup property (get_device device s)

  -- `update` writes the value of one property of one device, and no other.
  pub value_of-update :
      (d p j q : String) (v : V) (s : DeviceState V)
      → value_of j q (update d p v s) ≡ (if d == j && p == q then some v else value_of j q s)
  unfolding update get_device
  value_of-update d p j q v s = ground (
    arith,
    eq_iff d j,
    lookup-insert d j (insert p v (or_empty (lookup d s))) s,
    lookup-insert p q v (or_empty (lookup d s)),
  )

  -- `remove` removes the value of one property of one device, and no other.
  pub value_of-remove_property :
      (d p j q : String) (s : DeviceState V)
      → value_of j q (remove_property d p s) ≡ (if d == j && p == q then none else value_of j q s)
  unfolding remove_property get_device
  value_of-remove_property d p j q s = elim (Option-cases (lookup d s)) [
    | inl absent ↦ rw absent (ground (arith, absent, eq_iff d j, no_value q))
    | inr (ps, at) ↦
        rw at
          (ground (arith, at, eq_iff d j, lookup-insert d j (remove p ps) s, lookup-remove p q ps))
  ]
    where
      no_value : (k : String) → lookup {V = V} k [] ≡ none
      no_value k = unfold lookup in refl
