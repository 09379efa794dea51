-- ===== src/Server/Serializer/Plain.antt =====
-- Which messages of indi_engine/server/serializer.py `json.dumps` takes.
use indi_engine.Base.{
  String, Bool, true, false, ◌&&◌, ◌||◌, Option, none, some, List, [], ◌∷◌, ◌≡◌, refl, arith, ◌==◌,
  Bool-cases,
}
use indi_engine.Base.Dict.{values}
use indi_engine.Protocol.Constants.{PropertyType}
use indi_engine.Protocol.Properties.{Value, Element, Property}
use indi_engine.Protocol.Runtime.{Runtime}
use indi_engine.Server.Json.{
  Json, of_value, or_null, is_serializable, are_serializable, have_serializable,
}
use indi_engine.Server.Serializer.{
  Show, to_float, serialize_element, serialize_element_def, serialize_element_set,
  serialize_elements, serialize_property,
}

-- Numbers are converted and BLOBs are left out, so their values do not get into a message as they are.
abbrev pub is_converted : PropertyType → Bool
is_converted PropertyType.number = true
is_converted PropertyType.blob = true
is_converted _ = false

abbrev pub is_str : Value → Bool
is_str (Value.text s) = true
is_str (Value.bytes b) = false

abbrev pub is_str_or_none : Option Value → Bool
is_str_or_none none = true
is_str_or_none (some v) = is_str v

of_value-serializable :
    (py : Runtime) (v : Value) → is_serializable (of_value {py = py} v) ≡ is_str v
unfolding is_serializable
of_value-serializable py (Value.text s) = refl
of_value-serializable py (Value.bytes b) = refl

target-serializable :
    (py : Runtime) (o : Option Value)
    → is_serializable (or_null (of_value {py = py}) o) ≡ is_str_or_none o
unfolding is_serializable
target-serializable py none = refl
target-serializable py (some v) = of_value-serializable py v

module _ {py : Runtime} where
  -- What a message of the mode takes from the element is no bytes.
  abbrev pub is_plain : String → Element py → Bool
  is_plain mode e = is_str e.value && (mode == "def" || is_str_or_none e.target_value)

  unfoldable pub all_plain : String → List (Element py) → Bool
  all_plain mode [] = true
  all_plain mode (e ∷ es) = is_plain mode e && all_plain mode es

  or_null-serializable :
      {A : Type 0} (show : A → Json py) (o : Option A)
      → ((a : A) → is_serializable (show a) ≡ true)
      → is_serializable (or_null show o) ≡ true
  unfolding is_serializable
  or_null-serializable show none h = refl
  or_null-serializable show (some a) h = h a

  to_float-serializable :
      (show : Show py) (o : Option Value) → is_serializable (to_float show o) ≡ true
  unfolding to_float is_serializable
  to_float-serializable show none = refl
  to_float-serializable show (some v) = or_null-serializable Json.number (show.float v) (λ x. refl)

  plain_def :
      (show : Show py) (type : PropertyType) (e : Element py)
      → have_serializable (serialize_element_def show type e)
        ≡ (is_converted type || is_str e.value)
  unfolding serialize_element_def is_serializable
  plain_def show PropertyType.number e = ground (
    arith,
    or_null-serializable Json.number e.min (λ x. refl),
    or_null-serializable Json.number e.max (λ x. refl),
    or_null-serializable Json.number e.step (λ x. refl),
    to_float-serializable show (some e.value),
  )
  plain_def show PropertyType.blob e = refl
  plain_def show PropertyType.text e = ground (arith, of_value-serializable py e.value)
  plain_def show PropertyType.switch e = ground (arith, of_value-serializable py e.value)
  plain_def show PropertyType.light e = ground (arith, of_value-serializable py e.value)
  plain_def show PropertyType.unknown e = ground (arith, of_value-serializable py e.value)

  plain_set :
      (show : Show py) (type : PropertyType) (e : Element py)
      → have_serializable (serialize_element_set show type e)
        ≡ (is_converted type || is_str e.value && is_str_or_none e.target_value)
  unfolding serialize_element_set is_serializable
  plain_set show PropertyType.number e =
      ground (
        arith,
        to_float-serializable show (some e.value),
        to_float-serializable show e.target_value,
      )
  plain_set show PropertyType.blob e = refl
  plain_set show PropertyType.text e =
      ground (arith, of_value-serializable py e.value, target-serializable py e.target_value)
  plain_set show PropertyType.switch e =
      ground (arith, of_value-serializable py e.value, target-serializable py e.target_value)
  plain_set show PropertyType.light e =
      ground (arith, of_value-serializable py e.value, target-serializable py e.target_value)
  plain_set show PropertyType.unknown e =
      ground (arith, of_value-serializable py e.value, target-serializable py e.target_value)

  plain_element :
      (show : Show py) (mode : String) (type : PropertyType) (e : Element py)
      → have_serializable (serialize_element show mode type e)
        ≡ (is_converted type || is_plain mode e)
  unfolding serialize_element
  plain_element show mode type e = ground (arith, plain_def show type e, plain_set show type e)

  plain_elements :
      (show : Show py) (mode : String) (type : PropertyType) (es : List (Element py))
      → are_serializable (serialize_elements show mode type es)
        ≡ (is_converted type || all_plain mode es)
  unfolding serialize_elements are_serializable all_plain
  plain_elements show mode type [] = ground arith
  plain_elements show mode type (e ∷ es) =
      ground (arith, plain_element show mode type e, plain_elements show mode type es)

  -- `json.dumps` takes a property's message exactly if the property is of numbers or of BLOBs, or no
  -- element has bytes as its value or, in a message that is no definition, as its target value.
  pub serialize_property-serializable :
      (show : Show py) (mode : String) (p : Property py)
      → have_serializable (serialize_property show mode p)
        ≡ (is_converted p.type || all_plain mode (values p.elements))
  unfolding serialize_property have_serializable
  serialize_property-serializable show mode p = ground (
    arith,
    or_null-serializable (λ t. Json.text (show.isoformat t)) p.timestamp (λ t. refl),
    plain_elements show mode p.type (values p.elements),
    Bool-cases (mode == "def"),
  )
