-- ===== src/Server/Serializer.antt =====
-- indi_engine/server/serializer.py: the dicts that become the messages of the engine's protocol.
-- `float` is Python's, of a text or of bytes, and `none` when it raises ValueError or TypeError;
-- `isoformat` is that of a date.
pub mod Plain
pub mod Forms
use indi_engine.Base.{
  String, Bool, true, false, Option, none, some, List, [], ◌∷◌, if◌then◌else◌, ◌==◌,
}
use indi_engine.Base.Dict.{Dict, values}
use indi_engine.Protocol.Constants.{
  PropertyType, PropertyState, PropertyPerm, type_value, state_value, perm_value,
}
use indi_engine.Protocol.Properties.{Value, Element, Property, Device, is_connected}
use indi_engine.Protocol.Runtime.{Runtime}
use indi_engine.Server.Json.{Json, Items, Fields, join, without, texts, of_value, or_null}

-- The two functions that the serializer takes from Python.
pub record Show (py : Runtime) : Type 0 where
  pub float : Value → Option (py.Float)
  pub isoformat : py.Datetime → String

module _ {py : Runtime} where
  -- `_to_float`; None stays None.
  unfoldable pub to_float : Show py → Option Value → Json py
  to_float show none = Json.null
  to_float show (some v) = or_null Json.number (show.float v)

  -- `_serialize_element_def`
  unfoldable pub serialize_element_def : Show py → PropertyType → Element py → Fields py
  serialize_element_def show PropertyType.number e = Fields.field "name" (Json.text e.name) (
      Fields.field "label" (Json.text e.label) (
        Fields.field "format" (Json.text e.format) (
          Fields.field "min" (or_null Json.number e.min) (
            Fields.field "max" (or_null Json.number e.max) (
              Fields.field "step" (or_null Json.number e.step)
                (Fields.field "value" (to_float show (some e.value)) Fields.end))))))
  serialize_element_def show PropertyType.blob e =
      Fields.field "name" (Json.text e.name) (Fields.field "label" (Json.text e.label) Fields.end)
  serialize_element_def show _ e = Fields.field "name" (Json.text e.name) (
      Fields.field "label" (Json.text e.label) (Fields.field "value" (of_value e.value) Fields.end))

  -- `_serialize_element_set`
  unfoldable pub serialize_element_set : Show py → PropertyType → Element py → Fields py
  serialize_element_set show PropertyType.number e = Fields.field "name" (Json.text e.name) (
      Fields.field "value" (to_float show (some e.value))
        (Fields.field "target_value" (to_float show e.target_value) Fields.end))
  serialize_element_set show PropertyType.blob e = Fields.field "name" (Json.text e.name) (
      Fields.field "blob_format" (Json.text e.blob_format)
        (Fields.field "blob_size" (Json.integer e.blob_size) Fields.end))
  serialize_element_set show _ e = Fields.field "name" (Json.text e.name) (
      Fields.field "value" (of_value e.value)
        (Fields.field "target_value" (or_null of_value e.target_value) Fields.end))

  -- `_serialize_element`
  unfoldable pub serialize_element : Show py → String → PropertyType → Element py → Fields py
  serialize_element show mode type e =
      if mode == "def" then serialize_element_def show type e else serialize_element_set show type e

  unfoldable pub serialize_elements : Show py → String → PropertyType → List (Element py) → Items py
  serialize_elements show mode type [] = Items.nil
  serialize_elements show mode type (e ∷ es) =
      Items.item (Json.object (serialize_element show mode type e))
        (serialize_elements show mode type es)

  abbrev pub head_fields : Show py → String → Property py → Fields py
  head_fields show mode p = Fields.field "type" (Json.text mode) (
      Fields.field "device" (Json.text p.device_name) (
        Fields.field "property" (Json.text p.name) (
          Fields.field "data_type" (Json.text (type_value p.type)) (
            Fields.field "state" (Json.text (state_value p.state)) (
              Fields.field "timestamp" (or_null (λ t. Json.text (show.isoformat t)) p.timestamp)
                Fields.end)))))

  abbrev pub def_fields : Property py → Fields py
  def_fields p = Fields.field "label" (Json.text p.label) (
      Fields.field "group" (Json.text p.group)
        (Fields.field "perm" (Json.text (perm_value p.perm)) Fields.end))

  -- `serialize_property`
  unfoldable pub serialize_property : Show py → String → Property py → Fields py
  serialize_property show mode p = join (head_fields show mode p) (
      join (if mode == "def" then def_fields p else Fields.end) (
        Fields.field "elements"
          (Json.array (serialize_elements show mode p.type (values p.elements))) Fields.end))

  abbrev optional : String → Option (Json py) → Fields py
  optional key none = Fields.end
  optional key (some v) = Fields.field key v Fields.end

  -- `serialize_message`
  unfoldable pub serialize_message :
      Option String → String → Option String → Option String → Option (Json py) → Fields py
  serialize_message device message timestamp source context =
      join
        (Fields.field "type" (Json.text "message") (
          Fields.field "device" (or_null Json.text device) (
            Fields.field "message" (Json.text message)
              (Fields.field "timestamp" (or_null Json.text timestamp) Fields.end))))
        (join (optional "source" (text_of source)) (optional "context" context))
    where
      text_of : Option String → Option (Json py)
      text_of none = none
      text_of (some s) = some (Json.text s)

  -- `serialize_script_status`
  unfoldable pub serialize_script_status :
      String → String → String → String → py.Float → Option (Json py) → Fields py
  serialize_script_status run_id name status message progress resume_command =
      join
        (Fields.field "type" (Json.text "script_status") (
          Fields.field "run_id" (Json.text run_id) (
            Fields.field "name" (Json.text name) (
              Fields.field "status" (Json.text status) (
                Fields.field "message" (Json.text message)
                  (Fields.field "progress" (Json.number progress) Fields.end))))))
        (optional "resume_command" resume_command)

  unfoldable pub info_properties : Show py → List (Property py) → Items py
  info_properties show [] = Items.nil
  info_properties show (p ∷ ps) =
      Items.item (Json.object (without "type" (serialize_property show "def" p)))
        (info_properties show ps)

  -- `serialize_device_info`
  unfoldable pub serialize_device_info : Show py → Device py → Fields py
  serialize_device_info show d = Fields.field "type" (Json.text "device_info") (
      Fields.field "device" (Json.text d.name) (
        Fields.field "connected" (Json.flag (is_connected d)) (
          Fields.field "device_types" (Json.array (texts d.device_types)) (
            Fields.field "properties" (Json.array (info_properties show (values d.properties)))
              Fields.end))))
