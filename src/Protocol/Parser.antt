-- ===== src/Protocol/Parser.antt =====
-- `IndiXmlParser` of indi_engine/indi/protocol/parser.py. A parse error of the XML, an unknown tag
-- and a message without names give no value; a bad number or date raises ValueError.
pub mod Create
pub mod Created
pub mod Elements
use indi_engine.Base.{
  String, Bool, true, false, Option, none, some, List, [], ◌∷◌, if◌then◌else◌, ◌==◌,
}
use indi_engine.Base.Dict.{Dict, lookup, insert}
use indi_engine.Base.Int.{ℤ, pos}
use indi_engine.Base.Result.{Result, ok, err, value_error, ◌>>=◌}
use indi_engine.Protocol.Constants.{MessageType, message_type_map}
use indi_engine.Protocol.Message.{ElementData, MessageData, no_data, Message}
use indi_engine.Protocol.Properties.{Value, text, bytes}
use indi_engine.Protocol.Runtime.{Runtime, XmlChild, XmlElement}
use indi_engine.Protocol.Text.{strip, text_or, truthy}
use indi_engine.Transport.Bytes.{Bytes}

abbrev pub or_default {ℓ} : {A : Type ℓ} → Option A → A → A
or_default none d = d
or_default (some a) d = a

-- `elem.get(name, default)`
abbrev pub get : Dict String → String → String → String
get attributes name default = or_default (lookup name attributes) default

-- The dictionaries of one child, one function for each kind of property.
unfoldable pub number_element : XmlChild → ElementData
number_element c = record {
  name = get c.attributes "name" "";
  label = get c.attributes "label" "";
  value = text (strip (text_or c.text "0"));
  min = some (get c.attributes "min" "");
  max = some (get c.attributes "max" "");
  step = some (get c.attributes "step" "");
  format = some (get c.attributes "format" "");
  blob_format = none;
  blob_size = none;
}

abbrev plain_element : XmlChild → String → ElementData
plain_element c s = record {
  name = get c.attributes "name" "";
  label = get c.attributes "label" "";
  value = text s;
  min = none;
  max = none;
  step = none;
  format = none;
  blob_format = none;
  blob_size = none;
}

unfoldable pub text_element : XmlChild → ElementData
text_element c = plain_element c (strip (text_or c.text ""))

unfoldable pub switch_element : XmlChild → ElementData
switch_element c = plain_element c (strip (text_or c.text "Off"))

unfoldable pub light_element : XmlChild → ElementData
light_element c = plain_element c (text_or c.text "Idle")

-- `root.findall(elem_tag)`, each child written to the dictionary under its name
unfoldable pub parse_elements :
    (XmlChild → Result ElementData)
    → String
    → List XmlChild
    → Dict ElementData
    → Result (Dict ElementData)
parse_elements f tag [] d = ok d
parse_elements f tag (c ∷ cs) d =
    let parsed = f c >>= λ e. parse_elements f tag cs (insert e.name e d) in
    let skipped = parse_elements f tag cs d in if c.tag == tag then parsed else skipped

-- The keys that the five `_parse_*_property` methods set from the root's attributes.
abbrev pub vector_data : String → XmlElement → MessageData
vector_data type root = record no_data {
  type = some type;
  state = some (get root.attributes "state" "Idle");
  label = some (get root.attributes "label" "");
  group = some (get root.attributes "group" "");
}

abbrev with_elements : MessageData → Result (Dict ElementData) → Result MessageData
with_elements data' r = r >>= λ d. ok (record data' { elements = d })

module _ (py : Runtime) where
  abbrev int_or_raise : Option ℤ → Result ℤ
  int_or_raise none = err value_error
  int_or_raise (some n) = ok n

  abbrev decoded : Option Bytes → Bytes
  decoded none = []
  decoded (some b) = b

  abbrev blob_value : String → Bytes
  blob_value raw = if truthy raw then decoded (py.b64decode raw) else []

  -- `int(size_str) if size_str else 0`
  abbrev blob_size_of : String → Result ℤ
  blob_size_of s = if truthy s then int_or_raise (py.parse_int s) else ok (pos 0)

  unfoldable pub blob_element : XmlChild → Result ElementData
  blob_element c = blob_size_of (get c.attributes "size" "0") >>= λ size. ok (record {
    name = get c.attributes "name" "";
    label = get c.attributes "label" "";
    value = bytes (blob_value (strip (text_or c.text "")));
    min = none;
    max = none;
    step = none;
    format = none;
    blob_format = some (get c.attributes "format" "");
    blob_size = some size;
  })

  -- `_parse_number_property` and its four like, with the tag of the children
  unfoldable pub parse_number_property : XmlElement → String → Result MessageData
  parse_number_property root tag =
      with_elements
        (record (vector_data "number" root) { perm = some (get root.attributes "perm" "rw") })
        (parse_elements (λ c. ok (number_element c)) tag root.children [])

  unfoldable pub parse_text_property : XmlElement → String → Result MessageData
  parse_text_property root tag =
      with_elements
        (record (vector_data "text" root) { perm = some (get root.attributes "perm" "rw") })
        (parse_elements (λ c. ok (text_element c)) tag root.children [])

  unfoldable pub parse_switch_property : XmlElement → String → Result MessageData
  parse_switch_property root tag =
      with_elements
        (record (vector_data "switch" root) {
          perm = some (get root.attributes "perm" "rw");
          rule = some (get root.attributes "rule" "AnyOfMany");
        })
        (parse_elements (λ c. ok (switch_element c)) tag root.children [])

  unfoldable pub parse_light_property : XmlElement → String → Result MessageData
  parse_light_property root tag =
      with_elements (vector_data "light" root)
        (parse_elements (λ c. ok (light_element c)) tag root.children [])

  unfoldable pub parse_blob_property : XmlElement → String → Result MessageData
  parse_blob_property root tag =
      with_elements
        (record (vector_data "blob" root) { perm = some (get root.attributes "perm" "ro") })
        (parse_elements blob_element tag root.children [])

  -- The `if` chain on the message type.
  unfoldable pub parse_data : MessageType → XmlElement → String → String → Result MessageData
  parse_data MessageType.message root device property =
      ok (record no_data { message = some (get root.attributes "message" "") })
  parse_data MessageType.def_number root device property = parse_number_property root "defNumber"
  parse_data MessageType.set_number root device property = parse_number_property root "oneNumber"
  parse_data MessageType.def_text root device property = parse_text_property root "defText"
  parse_data MessageType.set_text root device property = parse_text_property root "oneText"
  parse_data MessageType.def_switch root device property = parse_switch_property root "defSwitch"
  parse_data MessageType.set_switch root device property = parse_switch_property root "oneSwitch"
  parse_data MessageType.def_light root device property = parse_light_property root "defLight"
  parse_data MessageType.set_light root device property = parse_light_property root "oneLight"
  parse_data MessageType.def_blob root device property = parse_blob_property root "defBLOB"
  parse_data MessageType.set_blob root device property = parse_blob_property root "oneBLOB"
  parse_data MessageType.del_property root device property =
      ok (record no_data { property = some property })
  parse_data MessageType.del_device root device property =
      ok (record no_data { device = some device })
  parse_data MessageType.new_blob root device property = ok no_data
  parse_data MessageType.unknown root device property = ok no_data

  abbrev date_or_raise : Option (py.Datetime) → Result (Option (py.Datetime))
  date_or_raise none = err value_error
  date_or_raise (some t) = ok (some t)

  -- `datetime.fromisoformat(ts_str)… if ts_str else None`
  unfoldable pub parse_timestamp : String → Result (Option (py.Datetime))
  parse_timestamp s = if truthy s then date_or_raise (py.from_isoformat s) else ok none

  unfoldable pub parse_known : MessageType → XmlElement → Result (Option (Message py))
  parse_known type root =
      let device = get root.attributes "device" "" in
      let property = get root.attributes "name" "" in
      parse_timestamp (get root.attributes "timestamp" "") >>= λ t.
      parse_data type root device property >>= λ d. ok (
        some (record {
          message_type = type;
          device_name = device;
          property_name = property;
          timestamp = t;
          contents = d;
        }))

  abbrev parse_type : Option MessageType → XmlElement → Result (Option (Message py))
  parse_type none root = ok none
  parse_type (some type) root = parse_known type root

  abbrev parse_root : Option XmlElement → Result (Option (Message py))
  parse_root none = ok none
  parse_root (some root) = parse_type (lookup root.tag message_type_map) root

  -- `parse_message`
  unfoldable pub parse_message : Bytes → Result (Option (Message py))
  unfolding parse_known
  parse_message xml = parse_root (py.from_string xml)
