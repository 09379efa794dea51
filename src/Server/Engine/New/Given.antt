-- ===== src/Server/Engine/New/Given.antt =====
-- The elements of a `new` command, and the targets that they set.
use indi_engine.Base.{
  String, Bool, true, false, ◌&&◌, ◌||◌, Option, none, some, List, [], ◌∷◌, ◌≡◌, refl, ap, ◌∙◌,
  arith, if◌then◌else◌, ◌==◌, eq_iff, Bool-cases, inl, inr,
}
use indi_engine.Base.Dict.{Dict, lookup, insert, values, lookup-insert}
use indi_engine.Base.Result.{ok}
use indi_engine.Protocol.Client.{Client}
use indi_engine.Protocol.Client.Send.{set_targets, set_target, str}
use indi_engine.Protocol.Client.Send.Targets.{element_of, aimed, element_of-set_target}
use indi_engine.Protocol.Properties.{Value, Element, new_element}
use indi_engine.Protocol.Runtime.{Runtime}
use indi_engine.Server.Engine.{or_blank}
use indi_engine.Server.Engine.New.{command_elements}
use indi_engine.Transport.Bytes.{Bytes}

abbrev pub later_or : Option String → Option String → Option String
later_or none first = first
later_or (some v) first = some v

-- The value that the last entry with a name has
abbrev pub last_given : String → List (Option String × Option String) → Option String
last_given i [] = none
last_given i ((none, value) ∷ more) = last_given i more
last_given i ((some name, value) ∷ more) =
    later_or (last_given i more) (if name == i then some (or_blank value) else none)

-- The data types that are forwarded
abbrev pub is_forwarded : String → Bool
is_forwarded data_type = data_type == "number" || data_type == "text" || data_type == "switch"

module _ {py : Runtime} where
  abbrev pub aimed_at : Option String → Option (Element py) → Option (Element py)
  aimed_at none o = o
  aimed_at (some shown) o = aimed (Value.text shown) o

  abbrev pub aim_all :
      (Bytes → String) → String → List (Element py) → Option (Element py) → Option (Element py)
  aim_all str_bytes i [] o = o
  aim_all str_bytes i (e ∷ es) o =
      aim_all str_bytes i es
        (if e.name == i then aimed (Value.text (str str_bytes e.value)) o else o)

  pub set_targets-element_of :
      (str_bytes : Bytes → String) (d q j r i : String) (es : List (Element py)) (c : Client py)
      → element_of j r i (set_targets str_bytes d q es c).devices ≡ (
          if d == j && q == r
          then aim_all str_bytes i es (element_of j r i c.devices)
          else element_of j r i c.devices)
  unfolding set_targets
  set_targets-element_of str_bytes d q j r i [] c = ground arith
  set_targets-element_of str_bytes d q j r i (e ∷ es) c =
      let v = Value.text (str str_bytes e.value) in
      set_targets-element_of str_bytes d q j r i es (set_target d q e.name v c)
      ∙ rw (element_of-set_target d q e.name j r i v c)
          (merged (d == j && q == r) (e.name == i) v (element_of j r i c.devices))
    where
      merged :
          (here named : Bool) (v : Value) (o : Option (Element py))
          → (if here
              then aim_all str_bytes i es (if here && named then aimed v o else o)
              else (if here && named then aimed v o else o))
            ≡ (if here then aim_all str_bytes i es (if named then aimed v o else o) else o)
      merged true named v o = refl
      merged false named v o = refl

  -- Every entry stands once, under its element's name, as a command gives it.
  abbrev pub IsGiven : Dict (Element py) → Type 0
  IsGiven [] = Unit
  IsGiven ((k, e) ∷ es) =
      ((shown : String) × (e ≡ new_element k shown)) × (lookup k es ≡ none) × IsGiven es

  insert-IsGiven :
      (k shown : String) (es : Dict (Element py))
      → IsGiven es
      → IsGiven (insert k (new_element k shown) es)
  unfolding insert lookup
  insert-IsGiven k shown [] h = ((shown, refl), refl, tt)
  insert-IsGiven k shown ((j, e) ∷ es) (old, fresh, h) = elim (Bool-cases (j == k)) [
    | inl here ↦ let same : j ≡ k = (eq_iff j k).0 here in rw here ((shown, rw same refl), fresh, h)
    | inr other ↦ rw other (
      old,
      lookup-insert k j (new_element k shown) es
          ∙ ground (arith, other, fresh, eq_iff k j, eq_iff j k),
      insert-IsGiven k shown es h,
    )
  ]

  abbrev pub aimed_as :
      (Bytes → String) → Option (Element py) → Option (Element py) → Option (Element py)
  aimed_as str_bytes none o = o
  aimed_as str_bytes (some e) o = aimed (Value.text (str str_bytes e.value)) o

  pub aim_all-values :
      (str_bytes : Bytes → String) (i : String) (es : Dict (Element py)) (o : Option (Element py))
      → IsGiven es
      → aim_all str_bytes i (values es) o ≡ aimed_as str_bytes (lookup i es) o
  unfolding lookup
  aim_all-values str_bytes i [] o h = refl
  aim_all-values str_bytes i ((k, e) ∷ es) o ((shown, given), fresh, h) =
      let v = Value.text (str str_bytes e.value) in
      let name : e.name ≡ k = ap (λ (x : Element py). x.name) given in
      elim (Bool-cases (k == i)) [
        | inl here ↦
            let same : k ≡ i = (eq_iff k i).0 here in
            let alone : lookup i es ≡ none = rw⁻¹ same fresh in
            rw (name, here) (aim_all-values str_bytes i es (aimed v o) h ∙ rw alone refl)
        | inr other ↦ rw (name, other) (aim_all-values str_bytes i es o h)
      ]

  abbrev pub given_or : String → Option String → Option (Element py) → Option (Element py)
  given_or i none old = old
  given_or i (some shown) old = some (new_element i shown)

  given_later :
      (i name shown : String) (later : Option String) (old : Option (Element py))
      → given_or i later (if name == i then some (new_element name shown) else old)
        ≡ given_or i (later_or later (if name == i then some shown else none)) old
  given_later i name shown (some v) old = refl
  given_later i name shown none old = elim (Bool-cases (name == i)) [
    | inl here ↦ rw here (ap (λ n. some (new_element n shown)) ((eq_iff name i).0 here))
    | inr other ↦ rw other refl
  ]

  pub command_elements-lookup :
      (i : String) (given : List (Option String × Option String)) (es₀ es : Dict (Element py))
      → IsGiven es₀
      → command_elements given es₀ ≡ ok es
      → IsGiven es × (lookup i es ≡ given_or i (last_given i given) (lookup i es₀))
  unfolding command_elements
  command_elements-lookup i [] es₀ es h made =
      let same : es₀ ≡ es = cc made in rw same (rw⁻¹ same h, refl)
  command_elements-lookup i ((none, value) ∷ more) es₀ es h made = absurd (cc made)
  command_elements-lookup i ((some name, value) ∷ more) es₀ es h made =
      let shown = or_blank value in
      let (filed, found) =
        command_elements-lookup i more (insert name (new_element name shown) es₀) es
          (insert-IsGiven name shown es₀ h) made in
      (
        filed,
        found
            ∙ rw (lookup-insert name i (new_element name shown) es₀)
                (given_later i name shown (last_given i more) (lookup i es₀)),
      )

  pub given_aimed :
      (str_bytes : Bytes → String) (i : String) (last : Option String) (o : Option (Element py))
      → aimed_as str_bytes (given_or i last none) o ≡ aimed_at last o
  given_aimed str_bytes i none o = refl
  given_aimed str_bytes i (some shown) o = refl
