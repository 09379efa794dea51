-- ===== src/Protocol/Parser/Create.antt =====
-- `create_property_from_message` and `create_device_from_message` of
-- indi_engine/indi/protocol/parser.py.
use indi_engine.Base.{String, not, ◌||◌, Option, none, some, [], ◌∷◌, if◌then◌else◌}
use indi_engine.Base.Dict.{Dict, lookup, insert}
use indi_engine.Base.Int.{pos}
use indi_engine.Base.Result.{Result, ok, err, value_error, ◌>>=◌}
use indi_engine.Protocol.Constants.{
  PropertyType, PropertyState, PropertyPerm, SwitchRule, property_types, property_states,
  property_perms, switch_rules,
}
use indi_engine.Protocol.Message.{ElementData, Message}
use indi_engine.Protocol.Parser.{or_default}
use indi_engine.Protocol.Properties.{Element, Property, Device}
use indi_engine.Protocol.Runtime.{Runtime}
use indi_engine.Protocol.Text.{truthy}

-- `_parse_enum`, for an enum class given by its members
unfoldable pub parse_enum {ℓ} : {E : Type ℓ} → Dict E → String → E → E
parse_enum members value default = or_default (lookup value members) default

module _ (py : Runtime) where
  abbrev float_or_raise : Option (py.Float) → Result (Option (py.Float))
  float_or_raise none = err value_error
  float_or_raise (some x) = ok (some x)

  -- `float(s) if s else None`
  unfoldable pub optional_float : String → Result (Option (py.Float))
  optional_float s = if truthy s then float_or_raise (py.parse_float s) else ok none

  -- The element before the assignments that depend on the type.
  abbrev pub base_element : String → ElementData → PropertyType → PropertyState → Element py
  base_element name d type state = record {
    name = name;
    value = d.value;
    state = state;
    type = type;
    label = d.label;
    format = or_default d.format "";
    min = none;
    max = none;
    step = none;
    blob_format = "";
    blob_size = pos 0;
    target_value = none;
  }

  -- One round of the loop over `elements_data`.
  unfoldable pub create_element :
      PropertyType → PropertyState → String → ElementData → Result (Element py)
  unfolding optional_float
  create_element PropertyType.number state name d = optional_float (or_default d.min "") >>= λ lo.
      optional_float (or_default d.max "") >>= λ hi. optional_float (or_default d.step "") >>= λ st.
      (let e = base_element name d PropertyType.number state in
        ok (record e { min = lo; max = hi; step = st }))
  create_element PropertyType.blob state name d =
      let e = base_element name d PropertyType.blob state in
      ok (record e {
        blob_format = or_default d.blob_format "";
        blob_size = or_default d.blob_size (pos 0);
      })
  create_element type state name d = ok (base_element name d type state)

  unfoldable pub create_elements :
      PropertyType
      → PropertyState
      → Dict ElementData
      → Dict (Element py)
      → Result (Dict (Element py))
  create_elements type state [] es = ok es
  create_elements type state ((name, d) ∷ ds) es =
      create_element type state name d >>= λ e. create_elements type state ds (insert name e es)

  -- `create_property_from_message`
  unfoldable pub create_property_from_message : Message py → Result (Option (Property py))
  unfolding parse_enum create_elements create_element
  create_property_from_message m =
      if not (truthy m.device_name) || not (truthy m.property_name)
      then ok none
      else (let d = m.contents in
          let type = parse_enum property_types (or_default d.type "unknown") PropertyType.unknown in
          let state = parse_enum property_states (or_default d.state "Idle") PropertyState.idle in
          let perm = parse_enum property_perms (or_default d.perm "rw") PropertyPerm.rw in
          let rule = parse_enum switch_rules (or_default d.rule "Unknown") SwitchRule.unknown in
          create_elements type state d.elements [] >>= λ es. ok (
            some (record {
              device_name = m.device_name;
              name = m.property_name;
              type = type;
              state = state;
              perm = perm;
              timestamp = m.timestamp;
              label = or_default d.label "";
              group = or_default d.group "";
              rule = rule;
              elements = es;
            })))

  -- `create_device_from_message`
  unfoldable pub create_device_from_message : Message py → Option (Device py)
  create_device_from_message m =
      if not (truthy m.device_name)
      then none
      else some (record { name = m.device_name; properties = []; messages = []; device_types = [] })
