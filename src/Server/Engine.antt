-- ===== src/Server/Engine.antt =====
-- The state that the commands of indi_engine/server/socket_server.py work on, the commands, and the
-- replies. A command's field is a text, a list of texts or absent; null counts as absent where the
-- code reads the field by `get`.
pub mod Devices
pub mod Control
pub mod Scripts
pub mod Images
pub mod New
pub mod Dispatch
pub mod Reached
pub mod Reports
pub mod Requests
pub mod Answers
pub mod Sent
mod Tests
use indi_engine.Base.{
  ℕ, String, Bool, true, false, not, Option, none, some, List, [], ◌∷◌, ◌++◌, if◌then◌else◌, ◌==◌,
}
use indi_engine.Base.Dict.{Dict, lookup, values}
use indi_engine.Base.Result.{Raised}
use indi_engine.Frames.{Codec, Meta}
use indi_engine.IndiServer.{Manager}
use indi_engine.Protocol.Client.{Client}
use indi_engine.Protocol.Properties.{Property, Device}
use indi_engine.Protocol.Runtime.{Runtime}
use indi_engine.Protocol.Text.{truthy}
use indi_engine.Scripting.Runner.{Runner, RunStatus}
use indi_engine.Server.Hub.{Packet, Hub}
use indi_engine.Server.Json.{Fields}
use indi_engine.Server.Serializer.{Show}
use indi_engine.Transport.Bytes.{Bytes}

-- The fields of a message of a client
pub record Command (Params : Type 0) : Type 0 where
  pub type : Option String
  pub action : Option String
  pub device : Option String
  pub property : Option String
  pub data_type : Option String
  pub elements : List (Option String × Option String)
  pub drivers : Option (List String)
  pub name : Option String
  pub params : Option Params
  pub run_id : Option String
  pub finish_current : Option Bool
  pub content : Option String
  pub frame_id : Option String
  pub hash : Option String

-- An entry of `known_engines`
pub record EngineInfo : Type 0 where
  pub name : String
  pub host : String
  pub port : ℕ
  pub capabilities : List String

-- The texts of the error replies
pub data Complaint : Type 0 where
  unavailable : Complaint
  missing_field : String → Complaint
  unknown_action : Option String → Complaint
  unknown_device : String → Complaint
  refused : Raised → Complaint

-- The messages that the server sends, without the field "device"
pub data Reply (py : Runtime) (Params : Type 0) : Type 0 where
  property_message : Fields py → Reply py Params
  device_type : List String → Reply py Params
  server_status : Bool → List String → Bool → Reply py Params
  device_error : Complaint → Reply py Params
  device_list : List String → Reply py Params
  device_info : Fields py → Reply py Params
  subscribe_ack unsubscribe_ack : Reply py Params
  capability_response :
      Option String → Option String → List String → List (String × Option String) → Reply py Params
  engine_list_response : Dict EngineInfo → Reply py Params
  engine_online : String → EngineInfo → Reply py Params
  engine_offline : String → String → Reply py Params
  frame_error : Complaint → Reply py Params
  frame_list : List Meta → Reply py Params
  frame_data : String → Meta → Bytes → Reply py Params
  frame_delete_ack : String → Reply py Params
  frame_ready : Meta → Reply py Params
  script_error : Complaint → Reply py Params
  script_list : List (Bool × String × String) → Reply py Params
  script_cancel_ack script_pause_ack : String → Bool → Reply py Params
  script_upload_ack script_delete_ack : String → Reply py Params
  script_info : Bool → String → Reply py Params
  script_runs : List (String × String) → Reply py Params
  script_status : String → String → RunStatus Params → Reply py Params

-- What a command meets outside the engine: whether a client's socket and the INDI server's take what
-- is sent, the libraries, the id of a new run, the directories' listings, and what a reconnect makes
-- of the INDI client.
pub record World (py : Runtime) (Params : Type 0) : Type 0 where
  pub accepts : ℕ → Bool
  pub indi_takes : Bool
  pub str_bytes : Bytes → String
  pub show : Show py
  pub codec : Codec
  pub compiles : String → Bool
  pub utf8_size : String → ℕ
  pub new_run_id : String
  pub no_params : Params
  pub scripts_in : Dict String → List (String × String)
  pub is_json : String → Bool
  pub newest_first : List Meta → List Meta
  pub reconnect : Client py → Client py

-- The components that the `set_` methods of `SocketServer` hand over
pub record Engine (py : Runtime) (M : Manager) (Params : Type 0) : Type 0 where
  pub client : Option (Client py)
  pub manager : Option (M.State)
  pub can_reconnect : Bool
  pub runner : Option (Runner Params)
  pub frames : Option (Dict Bytes)
  pub name : Option String
  pub capabilities : List (String × Option String)
  pub discovery : Option (Dict EngineInfo)
  pub hub : Hub (Reply py Params)

-- `cmd.get(key) == text`
abbrev pub says : Option String → String → Bool
says none text = false
says (some s) text = s == text

-- `bool(cmd.get(key))`
abbrev pub is_given : Option String → Bool
is_given none = false
is_given (some s) = truthy s

abbrev pub or_blank : Option String → String
or_blank none = ""
or_blank (some s) = s

module _ {py : Runtime} {Params : Type 0} where
  abbrev pub system : Reply py Params → Packet (Reply py Params)
  system reply = record { device = none; provenance = none; body = reply }

  abbrev pub of_device : String → Reply py Params → Packet (Reply py Params)
  of_device device reply = record { device = some device; provenance = none; body = reply }

  -- `_send_to`; an OSError is logged.
  unfoldable pub send_to :
      World py Params → ℕ → Packet (Reply py Params) → Hub (Reply py Params) → Hub (Reply py Params)
  send_to w conn msg h =
      if w.accepts conn then record h { sent = h.sent ++ (conn, msg) ∷ [] } else h

abbrev pub reply_to :
    {py : Runtime} {M : Manager} {Params : Type 0}
    → World py Params
    → ℕ
    → Packet (Reply py Params)
    → Engine py M Params
    → Engine py M Params
reply_to w conn msg e = record e { hub = send_to w conn msg e.hub }

-- `set_indi_client`, `set_server_manager`, `set_reconnect_callback`, `set_script_runner`,
-- `set_capabilities`, `set_discovery`, `set_frame_store` and `set_engine_identity`
module _ {py : Runtime} {M : Manager} {Params : Type 0} where
  unfoldable pub set_indi_client : Client py → Engine py M Params → Engine py M Params
  set_indi_client c e = record e { client = some c }

  unfoldable pub set_server_manager : Option (M.State) → Engine py M Params → Engine py M Params
  set_server_manager m e = record e { manager = m }

  unfoldable pub set_reconnect_callback : Engine py M Params → Engine py M Params
  set_reconnect_callback e = record e { can_reconnect = true }

  unfoldable pub set_script_runner : Runner Params → Engine py M Params → Engine py M Params
  set_script_runner r e = record e { runner = some r }

  unfoldable pub set_capabilities :
      List (String × Option String) → Engine py M Params → Engine py M Params
  set_capabilities capabilities e = record e { capabilities = capabilities }

  unfoldable pub set_discovery : Dict EngineInfo → Engine py M Params → Engine py M Params
  set_discovery known e = record e { discovery = some known }

  unfoldable pub set_frame_store : Dict Bytes → Engine py M Params → Engine py M Params
  set_frame_store files e = record e { frames = some files }

  unfoldable pub set_engine_identity : String → String → Engine py M Params → Engine py M Params
  set_engine_identity id name e = record e {
    hub = record e.hub { identity = some id };
    name = some name;
  }
