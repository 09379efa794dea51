-- ===== src/Protocol/Tests.antt =====
-- Runs of the protocol layer at fixed inputs: a definition of the text property NAME of a device Cam.
use indi_engine.Base.{
  ℕ, String, true, none, some, [], ◌∷◌, ◌++◌, ◌≡◌, refl, arith, ◌==◌, ◌&&◌, ◌||◌,
}
use indi_engine.Base.Dict.{lookup, insert, has_key}
use indi_engine.Base.Int.{pos}
use indi_engine.Base.Names.{member}
use indi_engine.Base.Result.{ok}
use indi_engine.Protocol.Client.{
  Client, Event, handle_message, handle_def_property, register_device, handle_set_property,
  store_property, update_state_manager,
}
use indi_engine.Protocol.Client.Announce.{
  announcement, stored_values, handle_def_property-announces,
}
use indi_engine.Protocol.Client.Define.{property_of, handle_def_property-stores}
use indi_engine.Protocol.Client.Reconnect.{connect_server-loses}
use indi_engine.Protocol.Client.Send.{escape_xml}
use indi_engine.Protocol.Client.Send.Escape.{escape_each, escape_xml-each}
use indi_engine.Protocol.Client.Session.{connect_server}
use indi_engine.Protocol.Client.Sync.{handle_message-Synced}
use indi_engine.Protocol.Client.Registered.{Synced}
use indi_engine.Protocol.Constants.{
  MessageType, PropertyType, PropertyState, PropertyPerm, SwitchRule,
}
use indi_engine.Protocol.Known
use indi_engine.Protocol.Known.{
  KnownState, is_device_known, is_property_known, add_property, remove_property, remove_device,
}
use indi_engine.Protocol.Known.View.{InStep, init-InStep, add_device-InStep, add_property-known}
use indi_engine.Protocol.Message.{ElementData, Message, no_data}
use indi_engine.Protocol.Client.Set.{handle_set_property-forgets}
use indi_engine.Protocol.Client.Send.{set_target}
use indi_engine.Protocol.Client.Send.Targets.{element_of}
use indi_engine.Protocol.Parser.Create.{
  create_property_from_message, create_elements, create_element, parse_enum,
}
use indi_engine.Protocol.Parser.Created.{BelongsAt, create_property_from_message-BelongsAt}
use indi_engine.Protocol.Properties.{Value, text, Element, Property, has_elements}
use indi_engine.Protocol.Runtime.{Runtime, XmlChild, XmlElement}
use indi_engine.Transport.Reader

-- A runtime whose parsers refuse everything.
abbrev runtime : Runtime
runtime = record {
  Float = ℕ;
  Datetime = ℕ;
  parse_float = λ s. none;
  parse_int = λ s. none;
  from_isoformat = λ s. none;
  b64decode = λ s. none;
  from_string = λ b. none;
}

abbrev element_data : ElementData
element_data = record {
  name = "FIRST";
  label = "First";
  value = Value.text "M31";
  min = none;
  max = none;
  step = none;
  format = none;
  blob_format = none;
  blob_size = none;
}

abbrev definition : Message runtime
definition = record {
  message_type = MessageType.def_text;
  device_name = "Cam";
  property_name = "NAME";
  timestamp = none;
  contents = record no_data {
    type = some "text";
    state = some "Ok";
    elements = ("FIRST", element_data) ∷ [];
  };
}

abbrev element : Element runtime
element = record {
  name = "FIRST";
  value = Value.text "M31";
  state = PropertyState.ok;
  type = PropertyType.text;
  label = "First";
  format = "";
  min = none;
  max = none;
  step = none;
  blob_format = "";
  blob_size = pos 0;
  target_value = none;
}

abbrev property : Property runtime
property = record {
  device_name = "Cam";
  name = "NAME";
  type = PropertyType.text;
  state = PropertyState.ok;
  perm = PropertyPerm.rw;
  timestamp = none;
  label = "";
  group = "";
  rule = SwitchRule.unknown;
  elements = ("FIRST", element) ∷ [];
}

abbrev fresh_client : Client runtime
fresh_client = record {
  devices = [];
  known = Known.init;
  state_manager = some [];
  transport = Reader.init;
  reader_running = true;
  events = [];
}

-- The client after the definition.
abbrev used_client : Client runtime
used_client = record fresh_client {
  devices =
      (
        "Cam",
        record {
          name = "Cam";
          properties = ("NAME", property) ∷ [];
          messages = [];
          device_types = [];
        },
      )
      ∷ [];
  known = record { known_devices = "Cam" ∷ []; known_properties = ("Cam", "NAME" ∷ []) ∷ [] };
}

definition_made : create_property_from_message runtime definition ≡ ok (some property)
unfolding create_property_from_message create_elements create_element parse_enum lookup insert
definition_made = refl

fresh-Synced : Synced fresh_client
unfolding is_device_known member
fresh-Synced = record { step = init-InStep; held = λ d known. absurd (ground (arith, known)) }

known_here : is_device_known "Cam" used_client.known ≡ true
unfolding is_device_known member
known_here = refl

handle_message-Synced_example : Synced (handle_message definition fresh_client).1
handle_message-Synced_example =
    handle_message-Synced definition fresh_client (λ other. absurd (cc other)) fresh-Synced

filled : has_elements property ≡ true
unfolding has_elements
filled = refl

handle_def_property-stores_example :
    property_of "Cam" "NAME" (handle_def_property definition fresh_client).1.devices ≡ some property
handle_def_property-stores_example =
    handle_def_property-stores definition property fresh_client definition_made filled fresh-Synced

handle_def_property-announces_example :
    let c' = handle_def_property definition fresh_client in
    (c'.0 ≡ ok tt)
    × (c'.1.events
        ≡ (register_device definition fresh_client).events
          ++ announcement definition property fresh_client ∷ [])
    × (c'.1.state_manager ≡ stored_values definition property fresh_client)
handle_def_property-announces_example =
    handle_def_property-announces definition property fresh_client definition_made filled refl
      fresh-Synced

-- An update of the property.
abbrev change : Message runtime
change = record definition { message_type = MessageType.set_text }

connect_server-loses_example :
    lookup "Cam" (handle_def_property definition (connect_server true used_client).1).1.devices
    ≡ none
connect_server-loses_example = connect_server-loses true definition used_client known_here

abbrev known_cam : KnownState
known_cam = Known.add_device "Cam" Known.init

add_property-known_example :
    ((add_property "Cam" "NAME" known_cam).0 ≡ ok tt)
    × InStep (add_property "Cam" "NAME" known_cam).1
    × ((j : String)
        → is_device_known j (add_property "Cam" "NAME" known_cam).1
          ≡ ("Cam" == j || is_device_known j known_cam))
    × ((j q : String)
        → is_property_known j q (add_property "Cam" "NAME" known_cam).1
          ≡ ("Cam" == j && "NAME" == q || is_property_known j q known_cam))
add_property-known_example =
    add_property-known "Cam" "NAME" known_cam (add_device-InStep "Cam" Known.init init-InStep)

create_property_from_message-BelongsAt_example :
    (property.device_name ≡ definition.device_name)
    × (property.name ≡ definition.property_name)
    × ((k : String) (e : Element runtime)
        → lookup k property.elements ≡ some e
        → BelongsAt runtime PropertyType.text PropertyState.ok k e)
create_property_from_message-BelongsAt_example =
    create_property_from_message-BelongsAt runtime definition property definition_made

abbrev child : XmlChild
child = record { tag = "defText"; attributes = ("name", "FIRST") ∷ []; text = some " M31 " }

abbrev vector : XmlElement
vector = record {
  tag = "defTextVector";
  attributes = [];
  children = child ∷ record child { text = none } ∷ [];
}

-- The client when the one element of the property has been commanded
abbrev aimed_client : Client runtime
aimed_client = set_target "Cam" "NAME" "FIRST" (Value.text "M13") used_client

change_made : create_property_from_message runtime change ≡ ok (some property)
unfolding create_property_from_message create_elements create_element parse_enum lookup insert
change_made = refl

name_known : is_property_known "Cam" "NAME" aimed_client.known ≡ true
unfolding is_property_known set_target lookup member
name_known = refl

cam_there : has_key "Cam" aimed_client.devices ≡ true
unfolding set_target lookup insert
cam_there = refl

element_there :
    element_of "Cam" "NAME" "FIRST" (handle_set_property change aimed_client).1.devices
    ≡ some element
unfolding set_target lookup insert handle_set_property store_property create_property_from_message
    create_elements create_element parse_enum Known.get_property_change member update_state_manager
    has_elements
element_there = refl

handle_set_property-forgets_example :
    let c' = (handle_set_property change aimed_client).1 in
    (c'.events ≡ aimed_client.events ++ Event.update_property property ∷ [])
    × (property_of "Cam" "NAME" c'.devices ≡ some property)
    × (element.target_value ≡ none)
handle_set_property-forgets_example =
    handle_set_property-forgets change property aimed_client "FIRST" element change_made filled refl
      name_known cam_there element_there

escape_xml-each_example : escape_xml "a<b & 'c'" ≡ escape_each "a<b & 'c'"
escape_xml-each_example = escape_xml-each "a<b & 'c'"
