-- ===== src/Server/Serializer/Forms.antt =====
-- What a reader of the engine's messages gets back from them.
use indi_engine.Base.{
  String, false, Option, none, some, List, [], ◌∷◌, ◌≡◌, refl, arith, ◌==◌, Bool-cases, inl, inr,
  eq_iff,
}
use indi_engine.Base.Dict.{Dict, lookup, values}
use indi_engine.Protocol.Constants.{
  PropertyType, PropertyState, PropertyPerm, type_value, state_value, perm_value, property_types,
  property_states, property_perms,
}
use indi_engine.Protocol.Properties.{Element, Property}
use indi_engine.Protocol.Runtime.{Runtime}
use indi_engine.Server.Json.{Json, Items, Fields, get, without}
use indi_engine.Server.Serializer.{
  Show, serialize_element, serialize_element_def, serialize_element_set, serialize_elements,
  serialize_property,
}

-- A member of an enum by its value
abbrev pub member_of {ℓ} : {A : Type ℓ} → Dict A → Option String → Option A
member_of table none = none
member_of table (some s) = lookup s table

type_read : (t : PropertyType) → lookup (type_value t) property_types ≡ some t
unfolding lookup
type_read PropertyType.number = refl
type_read PropertyType.text = refl
type_read PropertyType.switch = refl
type_read PropertyType.light = refl
type_read PropertyType.blob = refl
type_read PropertyType.unknown = refl

state_read : (s : PropertyState) → lookup (state_value s) property_states ≡ some s
unfolding lookup
state_read PropertyState.idle = refl
state_read PropertyState.ok = refl
state_read PropertyState.busy = refl
state_read PropertyState.alert = refl
state_read PropertyState.unknown = refl

perm_read : (p : PropertyPerm) → lookup (perm_value p) property_perms ≡ some p
unfolding lookup
perm_read PropertyPerm.ro = refl
perm_read PropertyPerm.wo = refl
perm_read PropertyPerm.rw = refl

module _ {py : Runtime} where
  abbrev pub as_text : Option (Json py) → Option String
  as_text (some (Json.text s)) = some s
  as_text _ = none

  abbrev pub name_in : Json py → Option String
  name_in (Json.object fs) = as_text (get "name" fs)
  name_in _ = none

  abbrev pub names_of : Items py → List (Option String)
  names_of Items.nil = []
  names_of (Items.item v vs) = name_in v ∷ names_of vs

  abbrev pub names_in : Option (Json py) → List (Option String)
  names_in (some (Json.array vs)) = names_of vs
  names_in _ = []

  abbrev pub element_names : List (Element py) → List (Option String)
  element_names [] = []
  element_names (e ∷ es) = some e.name ∷ element_names es

  -- What a reader finds in a message.
  pub record IsAbout (p : Property py) (fs : Fields py) : Type 0 where
    pub device : as_text (get "device" fs) ≡ some p.device_name
    pub name : as_text (get "property" fs) ≡ some p.name
    pub type : member_of property_types (as_text (get "data_type" fs)) ≡ some p.type
    pub state : member_of property_states (as_text (get "state" fs)) ≡ some p.state
    pub elements : names_in (get "elements" fs) ≡ element_names (values p.elements)

  pub record IsDefinition (p : Property py) (fs : Fields py) : Type 0 where
    pub about : IsAbout p fs
    pub label : as_text (get "label" fs) ≡ some p.label
    pub group : as_text (get "group" fs) ≡ some p.group
    pub perm : member_of property_perms (as_text (get "perm" fs)) ≡ some p.perm

  name_def :
      (show : Show py) (type : PropertyType) (e : Element py)
      → name_in (Json.object (serialize_element_def show type e)) ≡ some e.name
  unfolding serialize_element_def get
  name_def show PropertyType.number e = refl
  name_def show PropertyType.text e = refl
  name_def show PropertyType.switch e = refl
  name_def show PropertyType.light e = refl
  name_def show PropertyType.blob e = refl
  name_def show PropertyType.unknown e = refl

  name_set :
      (show : Show py) (type : PropertyType) (e : Element py)
      → name_in (Json.object (serialize_element_set show type e)) ≡ some e.name
  unfolding serialize_element_set get
  name_set show PropertyType.number e = refl
  name_set show PropertyType.text e = refl
  name_set show PropertyType.switch e = refl
  name_set show PropertyType.light e = refl
  name_set show PropertyType.blob e = refl
  name_set show PropertyType.unknown e = refl

  name_element :
      (show : Show py) (mode : String) (type : PropertyType) (e : Element py)
      → name_in (Json.object (serialize_element show mode type e)) ≡ some e.name
  unfolding serialize_element
  name_element show mode type e = elim (Bool-cases (mode == "def")) [
    | inl def ↦ rw def (name_def show type e)
    | inr set ↦ rw set (name_set show type e)
  ]

  names_elements :
      (show : Show py) (mode : String) (type : PropertyType) (es : List (Element py))
      → names_of (serialize_elements show mode type es) ≡ element_names es
  unfolding serialize_elements
  names_elements show mode type [] = refl
  names_elements show mode type (e ∷ es) =
      rw (name_element show mode type e, names_elements show mode type es) refl

  serialize_property-IsDefinition :
      (show : Show py) (p : Property py) → IsDefinition p (serialize_property show "def" p)
  unfolding serialize_property get
  serialize_property-IsDefinition show p = record {
    about = record {
      device = refl;
      name = refl;
      type = type_read p.type;
      state = state_read p.state;
      elements = names_elements show "def" p.type (values p.elements);
    };
    label = refl;
    group = refl;
    perm = perm_read p.perm;
  }

  serialize_property-IsAbout :
      (show : Show py) (p : Property py) → IsAbout p (serialize_property show "set" p)
  unfolding serialize_property get
  serialize_property-IsAbout show p = record {
    device = refl;
    name = refl;
    type = type_read p.type;
    state = state_read p.state;
    elements = names_elements show "set" p.type (values p.elements);
  }

  get-without :
      (key dropped : String) (fs : Fields py)
      → (dropped == key) ≡ false
      → get key (without dropped fs) ≡ get key fs
  unfolding get without
  get-without key dropped Fields.end other = refl
  get-without key dropped (Fields.field k v fs) other =
      ground (arith, get-without key dropped fs other, eq_iff k key, eq_iff k dropped, other)

  without-IsDefinition :
      (p : Property py) (fs : Fields py) → IsDefinition p fs → IsDefinition p (without "type" fs)
  without-IsDefinition p fs h = record {
    about = record {
      device = rw (get-without "device" "type" fs refl) h.about.device;
      name = rw (get-without "property" "type" fs refl) h.about.name;
      type = rw (get-without "data_type" "type" fs refl) h.about.type;
      state = rw (get-without "state" "type" fs refl) h.about.state;
      elements = rw (get-without "elements" "type" fs refl) h.about.elements;
    };
    label = rw (get-without "label" "type" fs refl) h.label;
    group = rw (get-without "group" "type" fs refl) h.group;
    perm = rw (get-without "perm" "type" fs refl) h.perm;
  }

  -- A reader of a "def" and of a "set" message gets the property's device, name, type, state and the names
  -- of its elements in order; of a "def", and of an entry of a device's properties, which has no "type",
  -- also its label, group and permission; and a "set" has none of the three.
  pub serialize_property-read :
      (show : Show py) (p : Property py)
      → IsDefinition p (serialize_property show "def" p)
        × IsDefinition p (without "type" (serialize_property show "def" p))
        × (get "type" (without "type" (serialize_property show "def" p)) ≡ none)
        × IsAbout p (serialize_property show "set" p)
        × (get "label" (serialize_property show "set" p) ≡ none)
        × (get "group" (serialize_property show "set" p) ≡ none)
        × (get "perm" (serialize_property show "set" p) ≡ none)
  unfolding serialize_property get without
  serialize_property-read show p =
      let def = serialize_property-IsDefinition show p in
      (
        def,
        without-IsDefinition p (serialize_property show "def" p) def,
        refl,
        serialize_property-IsAbout show p,
        refl,
        refl,
        refl,
      )
