-- ===== src/Protocol/Parser/Created.antt =====
-- The property that a message creates.
use indi_engine.Base.{
  String, not, ◌||◌, Option, none, some, [], ◌∷◌, ◌≡◌, refl, arith, ◌==◌, eq_iff, Bool-cases, inl,
  inr,
}
use indi_engine.Base.Dict.{Dict, lookup, insert, lookup-insert}
use indi_engine.Base.Result.{Result, ok, err, ◌>>=◌, >>=-eq-ok}
use indi_engine.Protocol.Constants.{PropertyType, PropertyState}
use indi_engine.Protocol.Message.{ElementData, Message}
use indi_engine.Protocol.Parser.Create.{
  create_element, create_elements, create_property_from_message, optional_float, base_element,
}
use indi_engine.Protocol.Parser.{or_default}
use indi_engine.Protocol.Properties.{Element, Property}
use indi_engine.Protocol.Runtime.{Runtime}
use indi_engine.Protocol.Text.{truthy}

module _ (py : Runtime) where
  -- An element that belongs under the key `k` of a property of this type and state.
  pub record BelongsAt (type : PropertyType) (state : PropertyState) (k : String) (e : Element py)
      : Type 0 where
    pub named : e.name ≡ k
    pub typed : e.type ≡ type
    pub stated : e.state ≡ state
    pub untargeted : e.target_value ≡ none

  abbrev Made : PropertyType → PropertyState → String → ElementData → Result (Element py) → Type 0
  Made type state k d (ok e) = BelongsAt type state k e × (e.value ≡ d.value)
  Made type state k d (err _) = Unit

  limits-Made :
      (state : PropertyState) (k : String) (d : ElementData) (lo hi st : Result (Option (py.Float)))
      → Made PropertyType.number state k d (
          lo >>= λ l. hi >>= λ h. st >>= λ s.
          (let e = base_element py k d PropertyType.number state in
            ok (record e { min = l; max = h; step = s })))
  limits-Made state k d (err e) hi st = tt
  limits-Made state k d (ok l) (err e) st = tt
  limits-Made state k d (ok l) (ok h) (err e) = tt
  limits-Made state k d (ok l) (ok h) (ok s) =
      (record { named = refl; typed = refl; stated = refl; untargeted = refl }, refl)

  create_element-Made :
      (type : PropertyType) (state : PropertyState) (k : String) (d : ElementData)
      → Made type state k d (create_element py type state k d)
  unfolding create_element
  create_element-Made PropertyType.number state k d =
      limits-Made state k d (optional_float py (or_default d.min ""))
        (optional_float py (or_default d.max "")) (optional_float py (or_default d.step ""))
  create_element-Made _ state k d =
      (record { named = refl; typed = refl; stated = refl; untargeted = refl }, refl)

  create_element-BelongsAt :
      (type : PropertyType) (state : PropertyState) (k : String) (d : ElementData) (e : Element py)
      → create_element py type state k d ≡ ok e
      → BelongsAt type state k e × (e.value ≡ d.value)
  create_element-BelongsAt type state k d e h = rw h at (create_element-Made type state k d)

  some-eq : {x y : Element py} → some x ≡ some y → x ≡ y
  some-eq h = cc

  -- What `create_elements` adds to the elements that it has.
  create_elements-BelongsAt :
      (type : PropertyType) (state : PropertyState) (ds : Dict ElementData)
      (es r : Dict (Element py))
      → ((k : String) (e : Element py) → lookup k es ≡ some e → BelongsAt type state k e)
      → create_elements py type state ds es ≡ ok r
      → (k : String) (e : Element py) → lookup k r ≡ some e
      → BelongsAt type state k e
  unfolding create_elements
  create_elements-BelongsAt type state [] es r h c k e at = h k e (ground arith)
  create_elements-BelongsAt type state ((name, d) ∷ ds) es r h c k e at =
      let (e₁, made, rest) = >>=-eq-ok (create_element py type state name d) _ c in
      let b = create_element-BelongsAt type state name d e₁ made in
      create_elements-BelongsAt type state ds (insert name e₁ es) r
        (λ j e' at'. elim (Bool-cases (name == j)) [
          | inl same ↦
              let written : some e₁ ≡ some e' = rw (lookup-insert name j e₁ es, same) at at' in
              let made' : e₁ ≡ e' = some-eq written in
              let key : name ≡ j = (eq_iff name j).0 same in rw (← made', ← key) (b.0)
          | inr other ↦ h j e' (rw (lookup-insert name j e₁ es, other) at at')
        ])
        rest k e at

  no_property : {p : Property py} → ok none ≡ ok (some p) → ⊥
  no_property h = cc

  some_property : {p q : Property py} → ok (some p) ≡ ok (some q) → p ≡ q
  some_property h = cc

  no_elements :
      {type : PropertyType} {state : PropertyState} (k : String) (e : Element py)
      → lookup k [] ≡ some e
      → BelongsAt type state k e
  unfolding lookup
  no_elements k e h = absurd (cc h)

  -- Every element of a created property is filed under its own name, has the type and the state of
  -- the property, and has no target; the property has the names of the message.
  pub create_property_from_message-BelongsAt :
      (m : Message py) (p : Property py)
      → create_property_from_message py m ≡ ok (some p)
      → (p.device_name ≡ m.device_name)
        × (p.name ≡ m.property_name)
        × ((k : String) (e : Element py)
            → lookup k p.elements ≡ some e
            → BelongsAt p.type p.state k e)
  unfolding create_property_from_message
  create_property_from_message-BelongsAt m p h =
      elim (Bool-cases (not (truthy m.device_name) || not (truthy m.property_name))) [
        | inl nameless ↦
            let none_made : ok none ≡ ok (some p) = rw nameless at h in
            absurd (no_property none_made)
        | inr named ↦
            let (es, made, whole) =
              >>=-eq-ok (create_elements py _ _ m.contents.elements []) _ (rw named at h) in
            let same = some_property whole in
            rw (← same)
              (refl, refl, create_elements-BelongsAt _ _ m.contents.elements [] es no_elements made)
      ]
