-- ===== src/Server/Engine/New.antt =====
-- The `new` command of `_handle_command`, and `_build_iproperty_from_command`, of
-- indi_engine/server/socket_server.py.
pub mod Given
pub mod Aimed
use indi_engine.Base.{
  String, Bool, not, ◌||◌, Option, none, some, List, [], ◌∷◌, if◌then◌else◌, ◌==◌,
}
use indi_engine.Base.Dict.{Dict, lookup, insert}
use indi_engine.Base.Result.{Result, ok, err, key_error, indi_disconnected_error}
use indi_engine.IndiServer.{Manager}
use indi_engine.Protocol.Client.{Client}
use indi_engine.Protocol.Client.Send.{send_new_number, send_new_text, send_new_switch}
use indi_engine.Protocol.Constants.{PropertyType}
use indi_engine.Protocol.Properties.{Element, Property, new_element, new_property}
use indi_engine.Protocol.Runtime.{Runtime}
use indi_engine.Server.Engine.{Command, World, Engine, is_given, or_blank}

-- `type_map`
abbrev pub type_map : Dict PropertyType
type_map =
    ("number", PropertyType.number)
    ∷ ("text", PropertyType.text)
    ∷ ("switch", PropertyType.switch)
    ∷ ("light", PropertyType.light)
    ∷ ("blob", PropertyType.blob)
    ∷ []

abbrev pub or_unknown : Option PropertyType → PropertyType
or_unknown none = PropertyType.unknown
or_unknown (some t) = t

abbrev pub is_malformed : {Params : Type 0} → Command Params → Bool
is_malformed cmd =
    not (is_given cmd.data_type) || not (is_given cmd.device) || not (is_given cmd.property)

-- An IndiDisconnectedError is logged; another exception goes up.
abbrev pub or_logged : Result (Unit {0}) → Result (Unit {0})
or_logged (err indi_disconnected_error) = ok tt
or_logged r = r

module _ {py : Runtime} where
  abbrev pub logged : Result (Unit {0}) × Client py → Result (Unit {0}) × Client py
  logged (r, c) = (or_logged r, c)

  abbrev pub kept : Result (Unit {0}) × Client py → Result (Unit {0}) × Option (Client py)
  kept (r, c) = (r, some c)

  -- The loop over `elements`
  unfoldable pub command_elements :
      List (Option String × Option String) → Dict (Element py) → Result (Dict (Element py))
  command_elements [] es = ok es
  command_elements ((none, value) ∷ more) es = err key_error
  command_elements ((some name, value) ∷ more) es =
      command_elements more (insert name (new_element name (or_blank value)) es)

  abbrev pub built :
      String → String → PropertyType → Result (Dict (Element py)) → Result (Property py)
  built device name type (err e) = err e
  built device name type (ok es) = ok (new_property device name type es)

module _ {py : Runtime} {Params : Type 0} where
  -- `_build_iproperty_from_command`, for a command with a device and a property
  unfoldable pub build_iproperty_from_command : Command Params → Result (Property py)
  build_iproperty_from_command cmd =
      built (or_blank cmd.device) (or_blank cmd.property)
        (or_unknown (lookup (or_blank cmd.data_type) type_map)) (command_elements cmd.elements [])

  -- The `try` with the three commands of the client
  abbrev pub forward :
      World py Params → String → Property py → Client py → Result (Unit {0}) × Client py
  forward w data_type p c =
      if data_type == "number"
      then logged (send_new_number w.indi_takes w.str_bytes p c)
      else if data_type == "text"
      then logged (send_new_text w.indi_takes w.str_bytes p c)
      else if data_type == "switch"
      then logged (send_new_switch w.indi_takes w.str_bytes p c)
      else (ok tt, c)

  abbrev pub forward_built :
      World py Params → String → Result (Property py) → Client py → Result (Unit {0}) × Client py
  forward_built w data_type (err e) c = (ok tt, c)
  forward_built w data_type (ok p) c = forward w data_type p c

  -- The `new` command on the INDI client, if there is one
  unfoldable pub new_on_client :
      World py Params → Command Params → Option (Client py) → Result (Unit {0}) × Option (Client py)
  new_on_client w cmd none = (ok tt, none)
  new_on_client w cmd (some c) =
      if is_malformed cmd
      then (ok tt, some c)
      else kept (forward_built w (or_blank cmd.data_type) (build_iproperty_from_command cmd) c)

module _ {py : Runtime} {M : Manager} {Params : Type 0} where
  unfoldable pub handle_new :
      World py Params → Command Params → Engine py M Params → Result (Unit {0}) × Engine py M Params
  handle_new w cmd e = let (r, c) = new_on_client w cmd e.client in (r, record e { client = c })
