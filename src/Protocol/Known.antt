-- ===== src/Protocol/Known.antt =====
-- `KnownState` of indi_engine/indi/protocol/state.py: the names of the devices and properties that
-- the client has seen.
pub mod View
use indi_engine.Base.{
  String, Bool, true, false, not, ◌&&◌, ◌||◌, Option, none, some, List, [], ◌∷◌, if◌then◌else◌,
}
use indi_engine.Base.Dict.{Dict, lookup, insert, remove, has_key}
use indi_engine.Base.Names.{member, add, discard}
use indi_engine.Base.Result.{Result, ok, err, key_error}
use indi_engine.Protocol.Constants.{MessageType}
use indi_engine.Protocol.Message.{Message}
use indi_engine.Protocol.Runtime.{Runtime}
use indi_engine.Protocol.Text.{truthy}

pub data ChangeType : Type 0 where
  new updated deleted : ChangeType

pub record KnownState : Type 0 where
  pub known_devices : List String
  pub known_properties : Dict (List String)

abbrev pub init : KnownState
init = record { known_devices = []; known_properties = [] }

abbrev pub is_del_property : MessageType → Bool
is_del_property MessageType.del_property = true
is_del_property _ = false

abbrev pub holds : Option (List String) → String → Bool
holds none p = false
holds (some ps) p = member p ps

-- `is_device_known`, `is_property_known`
unfoldable pub is_device_known : String → KnownState → Bool
is_device_known device k = member device k.known_devices

unfoldable pub is_property_known : String → String → KnownState → Bool
is_property_known device property k = holds (lookup device k.known_properties) property

module _ {py : Runtime} where
  -- `get_device_change`
  unfoldable pub get_device_change : Message py → KnownState → Option ChangeType
  get_device_change m k =
      if not (truthy m.device_name)
      then none
      else if member m.device_name k.known_devices
      then none
      else some new

  -- `get_property_change`
  unfoldable pub get_property_change : Message py → Bool → KnownState → Option ChangeType
  get_property_change m is_def_message k =
      if not (truthy m.device_name) || not (truthy m.property_name)
      then none
      else if is_del_property m.message_type
      then (if holds (lookup m.device_name k.known_properties) m.property_name
          then some deleted
          else none)
      else if is_def_message
      then (if not (has_key m.device_name k.known_properties)
          then some new
          else if not (holds (lookup m.device_name k.known_properties) m.property_name)
          then some new
          else some updated)
      else if holds (lookup m.device_name k.known_properties) m.property_name
      then some updated
      else none

-- `add_device`
unfoldable pub add_device : String → KnownState → KnownState
add_device device k = record {
  known_devices = add device k.known_devices;
  known_properties =
      if not (has_key device k.known_properties)
      then insert device [] k.known_properties
      else k.known_properties;
}

abbrev pub add_name :
    String → String → Option (List String) → KnownState → Result (Unit {0}) × KnownState
add_name device property none k = (err key_error, k)
add_name device property (some ps) k =
    (ok tt, record k { known_properties = insert device (add property ps) k.known_properties })

-- `if device_name not in self.known_devices: self.add_device(device_name)`
unfoldable pub ensure_device : String → KnownState → KnownState
ensure_device device k = if not (member device k.known_devices) then add_device device k else k

-- `add_property`; `self.known_properties[device_name]` may raise KeyError.
unfoldable pub add_property : String → String → KnownState → Result (Unit {0}) × KnownState
add_property device property k =
    let k' = ensure_device device k in
    add_name device property (lookup device k'.known_properties) k'

abbrev discard_name : String → String → Option (List String) → KnownState → KnownState
discard_name device property none k = k
discard_name device property (some ps) k = record k {
  known_properties = insert device (discard property ps) k.known_properties;
}

-- `remove_property`
unfoldable pub remove_property : String → String → KnownState → KnownState
remove_property device property k =
    discard_name device property (lookup device k.known_properties) k

-- `remove_device`
unfoldable pub remove_device : String → KnownState → KnownState
remove_device device k = record {
  known_devices = discard device k.known_devices;
  known_properties = remove device k.known_properties;
}

-- `clear`
unfoldable pub clear : KnownState → KnownState
clear k = init
