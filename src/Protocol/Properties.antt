-- ===== src/Protocol/Properties.antt =====
-- The property, element and device models of indi_engine/indi/protocol/properties.py. A getter of a
-- field is the field itself; `len` and iteration are those of the list of elements.
use indi_engine.Base.{
  ℕ, ◌+◌, String, Bool, true, false, not, ◌&&◌, Option, none, some, List, [], ◌∷◌, ◌++◌, length,
  if◌then◌else◌, ◌==◌,
}
use indi_engine.Base.Dict.{Dict, lookup, values}
use indi_engine.Base.Int.{ℤ, pos, negsuc, is_positive}
use indi_engine.Protocol.Constants.{PropertyType, PropertyState, PropertyPerm, SwitchRule}
use indi_engine.Protocol.Runtime.{Runtime}
use indi_engine.Protocol.Text.{truthy}
use indi_engine.Transport.Bytes.{Bytes}

-- `Union[str, bytes]`
pub data Value : Type 0 where
  text : String → Value
  bytes : Bytes → Value

-- IPropertyElement
pub record Element (py : Runtime) : Type 0 where
  pub name : String
  pub value : Value
  pub state : PropertyState
  pub type : PropertyType
  pub label : String
  pub format : String
  pub min : Option (py.Float)
  pub max : Option (py.Float)
  pub step : Option (py.Float)
  pub blob_format : String
  pub blob_size : ℤ
  pub target_value : Option Value

-- IProperty
pub record Property (py : Runtime) : Type 0 where
  pub device_name : String
  pub name : String
  pub type : PropertyType
  pub state : PropertyState
  pub perm : PropertyPerm
  pub timestamp : Option (py.Datetime)
  pub label : String
  pub group : String
  pub rule : SwitchRule
  pub elements : Dict (Element py)

-- IDevice
pub record Device (py : Runtime) : Type 0 where
  pub name : String
  pub properties : Dict (Property py)
  pub messages : List String
  pub device_types : List String

-- `elem.value == text`
abbrev pub is_text : Value → String → Bool
is_text (text s) t = s == t
is_text (bytes b) t = false

abbrev pub same_type : PropertyType → PropertyType → Bool
same_type PropertyType.number PropertyType.number = true
same_type PropertyType.text PropertyType.text = true
same_type PropertyType.switch PropertyType.switch = true
same_type PropertyType.light PropertyType.light = true
same_type PropertyType.blob PropertyType.blob = true
same_type PropertyType.unknown PropertyType.unknown = true
same_type _ _ = false

abbrev data_of : Value → Bytes
data_of (text s) = []
data_of (bytes b) = b

abbrev pub is_filled : {A : Type 0} → List A → Bool
is_filled [] = false
is_filled (x ∷ xs) = true

module _ {py : Runtime} where
  -- `IPropertyElement(name=name, value=shown)`
  abbrev pub new_element : String → String → Element py
  new_element name shown = record {
    name = name;
    value = Value.text shown;
    state = PropertyState.idle;
    type = PropertyType.unknown;
    label = "";
    format = "";
    min = none;
    max = none;
    step = none;
    blob_format = "";
    blob_size = pos 0;
    target_value = none;
  }

  -- `IProperty(device_name=device, name=name, type=type, perm=RW)`, and its elements
  abbrev pub new_property : String → String → PropertyType → Dict (Element py) → Property py
  new_property device name type elements = record {
    device_name = device;
    name = name;
    type = type;
    state = PropertyState.idle;
    perm = PropertyPerm.rw;
    timestamp = none;
    label = "";
    group = "";
    rule = SwitchRule.unknown;
    elements = elements;
  }

  -- `bool(prop)`, by `IProperty.__len__`: a property without elements is false.
  unfoldable pub has_elements : Property py → Bool
  has_elements p = is_filled p.elements

  -- `getblobdata`
  unfoldable pub get_blob_data : Element py → Bytes
  get_blob_data e = data_of e.value

  -- `getbloblen`
  unfoldable pub get_blob_len : Element py → ℤ
  unfolding get_blob_data is_positive
  get_blob_len e = if is_positive e.blob_size then e.blob_size else pos (length (get_blob_data e))

  -- `getNumber`, `getText`, `getSwitch`, `getLight` and `getBLOB` of a property
  unfoldable pub get_typed : PropertyType → Property py → Option (List (Element py))
  get_typed t p = if same_type p.type t then some (values p.elements) else none

  unfoldable pub first_on : List (Element py) → Option (Element py)
  first_on [] = none
  first_on (e ∷ es) = if is_text e.value "On" then some e else first_on es

  -- `findOnSwitch`
  unfoldable pub find_on_switch : Property py → Option (Element py)
  unfolding first_on
  find_on_switch p = first_on (values p.elements)

  unfoldable pub on_index_from : ℕ → List (Element py) → ℤ
  on_index_from i [] = negsuc 0
  on_index_from i (e ∷ es) =
      let later = on_index_from (i + 1) es in if is_text e.value "On" then pos i else later

  -- `findOnSwitchIndex`
  unfoldable pub find_on_switch_index : Property py → ℤ
  unfolding on_index_from
  find_on_switch_index p = on_index_from 0 (values p.elements)

  abbrev name_or_empty : Option (Element py) → String
  name_or_empty none = ""
  name_or_empty (some e) = e.name

  -- `findOnSwitchName`
  unfoldable pub find_on_switch_name : Property py → String
  unfolding find_on_switch
  find_on_switch_name p = name_or_empty (find_on_switch p)

  abbrev pub is_on : Option (Element py) → Bool
  is_on none = false
  is_on (some e) = is_text e.value "On"

  -- `isSwitchOn`
  unfoldable pub is_switch_on : Property py → String → Bool
  is_switch_on p name = is_on (lookup name p.elements)

  -- `isValid`
  unfoldable pub is_valid : Property py → Bool
  is_valid p = truthy p.device_name && truthy p.name && not (same_type p.type PropertyType.unknown)

  abbrev connect_is_on : Option (Property py) → Bool
  connect_is_on none = false
  connect_is_on (some p) = is_on (lookup "CONNECT" p.elements)

  -- `isConnected`
  unfoldable pub is_connected : Device py → Bool
  is_connected d = connect_is_on (lookup "CONNECTION" d.properties)

  abbrev if_type : PropertyType → Option (Property py) → Option (Property py)
  if_type t none = none
  if_type t (some p) = if same_type p.type t then some p else none

  -- `getNumber`, `getText`, `getSwitch`, `getLight` and `getBLOB` of a device
  unfoldable pub get_property_typed : PropertyType → Device py → String → Option (Property py)
  get_property_typed t d name = if_type t (lookup name d.properties)

  -- `addMessage`, `clearMessages`
  unfoldable pub add_message : String → Device py → Device py
  add_message msg d = record d { messages = d.messages ++ msg ∷ [] }

  unfoldable pub clear_messages : Device py → Device py
  clear_messages d = record d { messages = [] }
