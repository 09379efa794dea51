-- ===== src/Server/Engine/Tests.antt =====
-- Runs of the server's commands, of its serializer and of discovery at fixed inputs.
use indi_engine.Base.{
  ℕ, ◌≢◌, String, true, false, ◌||◌, ◌&&◌, ◌++◌, none, some, [], ◌∷◌, ◌≡◌, refl, arith,
  if◌then◌else◌, ◌==◌, eq_iff,
}
use indi_engine.Base.Dict.{Dict, lookup, values, insert}
use indi_engine.Base.Numbers.{◌==◌ as nat_eq}
use indi_engine.IndiServer.Managers.{process_manager, managers-drivers}
use indi_engine.Samples.{runtime, client, filter_name, world, hub, engine, manager, command}
use indi_engine.Server.Delivery.{packets_to}
use indi_engine.Server.Discovery.{Service, added, removed, on_changes}
use indi_engine.Server.Discovery.Seen.{given, going_id, on_changes-gone}
use indi_engine.Server.Engine.{Command, Engine, EngineInfo, Reply, or_blank}
use indi_engine.Server.Engine.Control.{handle_server_control, manager_drivers}
use indi_engine.Server.Engine.Devices.{handle_subscription, ack}
use indi_engine.Server.Engine.Dispatch.{handle_command}
use indi_engine.Base.Result.{ok}
use indi_engine.Protocol.Client.{Client}
use indi_engine.Protocol.Client.Send.Targets.{element_of}
use indi_engine.Protocol.Properties.{Element, new_element}
use indi_engine.Server.Engine.New.{command_elements, handle_new, is_malformed}
use indi_engine.Server.Engine.New.Aimed.{handle_new-targets}
use indi_engine.Server.Engine.New.Given.{last_given, aimed_at}
use indi_engine.Server.Engine.Reached.{Leaves, handle_command-Leaves}
use indi_engine.Server.Engine.Reports.{expected_drivers, handle_server_control-drivers}
use indi_engine.Server.Engine.Sent.{snapshot, handle_subscription-sends}
use indi_engine.Server.Hub.{Hub, Subscriptions, subscriptions_of}
use indi_engine.Server.Json.{get, without, have_serializable}
use indi_engine.Server.Serializer.{serialize_property}
use indi_engine.Server.Serializer.Forms.{IsAbout, IsDefinition, serialize_property-read}
use indi_engine.Server.Serializer.Plain.{is_converted, all_plain, serialize_property-serializable}

serialize_property-serializable_example :
    have_serializable (serialize_property world.show "set" filter_name)
    ≡ (is_converted filter_name.type || all_plain "set" (values filter_name.elements))
serialize_property-serializable_example =
    serialize_property-serializable world.show "set" filter_name

serialize_property-read_example :
    IsDefinition filter_name (serialize_property world.show "def" filter_name)
    × IsDefinition filter_name (without "type" (serialize_property world.show "def" filter_name))
    × (get "type" (without "type" (serialize_property world.show "def" filter_name)) ≡ none)
    × IsAbout filter_name (serialize_property world.show "set" filter_name)
    × (get "label" (serialize_property world.show "set" filter_name) ≡ none)
    × (get "group" (serialize_property world.show "set" filter_name) ≡ none)
    × (get "perm" (serialize_property world.show "set" filter_name) ≡ none)
serialize_property-read_example = serialize_property-read world.show filter_name

abbrev subscribes : Command ℕ
subscribes = record command { type = some "subscribe" }

abbrev to_all : Subscriptions
to_all = record { all = true; devices = [] }

second : subscriptions_of 2 hub.connections ≡ some to_all
unfolding subscriptions_of
second = refl

handle_subscription-sends_example :
    packets_to 2 (handle_subscription world subscribes 2 (some client) hub).sent
    ≡ packets_to 2 hub.sent
      ++ (if nat_eq 2 2 && world.accepts 2
          then ack subscribes.device Reply.subscribe_ack
            ∷ snapshot world subscribes.device (some client)
          else [])
handle_subscription-sends_example =
    handle_subscription-sends world subscribes 2 2 (some client) hub to_all refl second

abbrev restarts : Command ℕ
restarts = record command {
  type = some "server_control";
  action = some "restart";
  drivers = some ("focus" ∷ []);
}

handle_server_control-drivers_example :
    manager_drivers process_manager (handle_server_control world restarts 1 engine).manager
    ≡ expected_drivers process_manager restarts manager
handle_server_control-drivers_example =
    handle_server_control-drivers managers-drivers.0 world restarts 1 manager engine refl refl

abbrev runs : Command ℕ
runs = record command { type = some "script_control"; action = some "run"; name = some "slew" }

apart : ◌≢◌ {A = ℕ} 1 2
apart = omega arith

handle_command-Leaves_example : Leaves 2 engine.hub (handle_command world subscribes 1 engine).1.hub
handle_command-Leaves_example = handle_command-Leaves world subscribes 1 2 engine apart refl refl

abbrev service : Service
service = record {
  properties = ("engine_id", "there") ∷ ("name", "Dome") ∷ [];
  address = some "10.0.0.2";
  port = 8624;
}

same_id : lookup "engine_id" service.properties ≡ some "there"
unfolding lookup
same_id = refl

-- Two texts that the test tells apart
differ : (a b : String) → (a == b) ≡ false → a ≢ b
differ a b h same = ground (arith, h, eq_iff a b, same)

third_name : "third" ≢ going_id "there._tcp" none
third_name = differ "third" "there._tcp" refl

abbrev nobody : Dict EngineInfo × Hub (Reply runtime ℕ)
nobody = ([], hub)

on_changes-gone_example :
    let come = on_changes world.accepts "here" (added "there._tcp" (some service) ∷ []) nobody in
    let gone = on_changes world.accepts "here" (removed "there._tcp" none ∷ []) come in
    ((i : EngineInfo) × (lookup "there" come.0 ≡ some i)
      × (i.name ≡ given "there._tcp" (lookup "name" service.properties))
      × (i.host ≡ given "" service.address)
      × (i.port ≡ service.port))
    × (lookup "there" gone.0
        ≡ (if going_id "there._tcp" none == "there" then none else lookup "there" come.0))
    × (lookup "third" gone.0 ≡ lookup "third" nobody.0)
on_changes-gone_example =
    on_changes-gone world.accepts "here" "there._tcp" "there" "third" service none nobody same_id
      (differ "there" "here" refl) (differ "third" "there" refl) third_name

abbrev new_filter : Command ℕ
new_filter = record command {
  type = some "new";
  data_type = some "text";
  property = some "FILTER";
  elements = (some "NAME", some "Blue") ∷ [];
}

abbrev up_client : Client runtime
up_client = record client {
  transport = record client.transport { connected = true; has_socket = true };
}

abbrev up_engine : Engine runtime process_manager ℕ
up_engine = record engine { client = some up_client }

abbrev new_elements : Dict (Element runtime)
new_elements = ("NAME", new_element "NAME" "Blue") ∷ []

well_formed : is_malformed new_filter ≡ false
well_formed = refl

elements_made : command_elements new_filter.elements [] ≡ ok new_elements
unfolding command_elements insert
elements_made = refl

handle_new-targets_example :
    (c' : Client runtime) × ((handle_new world new_filter up_engine).1.client ≡ some c')
    × (element_of "Cam" "FILTER" "NAME" c'.devices ≡ (
        if or_blank new_filter.device == "Cam" && or_blank new_filter.property == "FILTER"
        then aimed_at
            (last_given "NAME" new_filter.elements)
            (element_of "Cam" "FILTER" "NAME" up_client.devices)
        else element_of "Cam" "FILTER" "NAME" up_client.devices))
handle_new-targets_example =
    handle_new-targets world new_filter up_client up_engine new_elements "Cam" "FILTER" "NAME" refl
      well_formed refl refl elements_made
