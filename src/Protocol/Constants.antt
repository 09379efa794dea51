-- ===== src/Protocol/Constants.antt =====
-- The enums and the tag table of indi_engine/indi/protocol/constants.py. An enum class is the table
-- of its members by value, in the order of the class.
use indi_engine.Base.{String, [], ◌∷◌}
use indi_engine.Base.Dict.{Dict}

pub data PropertyType : Type 0 where
  number text switch light blob unknown : PropertyType

pub data PropertyState : Type 0 where
  idle ok busy alert unknown : PropertyState

pub data PropertyPerm : Type 0 where
  ro wo rw : PropertyPerm

pub data SwitchRule : Type 0 where
  one_of_many at_most_one any_of_many unknown : SwitchRule

pub data BlobHandling : Type 0 where
  b_never b_also b_only : BlobHandling

pub data MessageType : Type 0 where
  def_number def_text def_switch def_light def_blob : MessageType
  set_number set_text set_switch set_light set_blob : MessageType
  message del_property del_device new_blob unknown : MessageType

abbrev pub property_types : Dict PropertyType
property_types =
    ("number", PropertyType.number)
    ∷ ("text", PropertyType.text)
    ∷ ("switch", PropertyType.switch)
    ∷ ("light", PropertyType.light)
    ∷ ("blob", PropertyType.blob)
    ∷ ("unknown", PropertyType.unknown)
    ∷ []

abbrev pub property_states : Dict PropertyState
property_states =
    ("Idle", PropertyState.idle)
    ∷ ("Ok", PropertyState.ok)
    ∷ ("Busy", PropertyState.busy)
    ∷ ("Alert", PropertyState.alert)
    ∷ ("Unknown", PropertyState.unknown)
    ∷ []

abbrev pub property_perms : Dict PropertyPerm
property_perms = ("ro", PropertyPerm.ro) ∷ ("wo", PropertyPerm.wo) ∷ ("rw", PropertyPerm.rw) ∷ []

abbrev pub switch_rules : Dict SwitchRule
switch_rules =
    ("OneOfMany", SwitchRule.one_of_many)
    ∷ ("AtMostOne", SwitchRule.at_most_one)
    ∷ ("AnyOfMany", SwitchRule.any_of_many)
    ∷ ("Unknown", SwitchRule.unknown)
    ∷ []

-- The `value` of a member.
abbrev pub type_value : PropertyType → String
type_value PropertyType.number = "number"
type_value PropertyType.text = "text"
type_value PropertyType.switch = "switch"
type_value PropertyType.light = "light"
type_value PropertyType.blob = "blob"
type_value PropertyType.unknown = "unknown"

abbrev pub state_value : PropertyState → String
state_value PropertyState.idle = "Idle"
state_value PropertyState.ok = "Ok"
state_value PropertyState.busy = "Busy"
state_value PropertyState.alert = "Alert"
state_value PropertyState.unknown = "Unknown"

abbrev pub perm_value : PropertyPerm → String
perm_value PropertyPerm.ro = "ro"
perm_value PropertyPerm.wo = "wo"
perm_value PropertyPerm.rw = "rw"

abbrev pub rule_value : SwitchRule → String
rule_value SwitchRule.one_of_many = "OneOfMany"
rule_value SwitchRule.at_most_one = "AtMostOne"
rule_value SwitchRule.any_of_many = "AnyOfMany"
rule_value SwitchRule.unknown = "Unknown"

abbrev pub blob_handling_value : BlobHandling → String
blob_handling_value BlobHandling.b_never = "Never"
blob_handling_value BlobHandling.b_also = "Also"
blob_handling_value BlobHandling.b_only = "Only"

-- MESSAGE_TYPE_MAP
abbrev pub message_type_map : Dict MessageType
message_type_map =
    ("defNumberVector", MessageType.def_number)
    ∷ ("defTextVector", MessageType.def_text)
    ∷ ("defSwitchVector", MessageType.def_switch)
    ∷ ("defLightVector", MessageType.def_light)
    ∷ ("defBLOBVector", MessageType.def_blob)
    ∷ ("setNumberVector", MessageType.set_number)
    ∷ ("setTextVector", MessageType.set_text)
    ∷ ("setSwitchVector", MessageType.set_switch)
    ∷ ("setLightVector", MessageType.set_light)
    ∷ ("setBLOBVector", MessageType.set_blob)
    ∷ ("message", MessageType.message)
    ∷ ("delProperty", MessageType.del_property)
    ∷ ("delDevice", MessageType.del_device)
    ∷ ("newBLOBVector", MessageType.new_blob)
    ∷ []
