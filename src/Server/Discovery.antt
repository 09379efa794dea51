-- ===== src/Server/Discovery.antt =====
-- The table of peer engines of indi_engine/network/discovery.py, which changes with the services that
-- zeroconf sees come and go. The properties of a service are texts here.
pub mod Seen
use Prim.Native.String
use indi_engine.Base.{
  ℕ, String, Bool, true, false, not, Option, none, some, List, [], ◌∷◌, ◌++◌, if◌then◌else◌, ◌==◌,
}
use indi_engine.Base.Dict.{Dict, lookup, insert, remove}
use indi_engine.Protocol.Runtime.{Runtime}
use indi_engine.Protocol.Text.{truthy}
use indi_engine.Server.Engine.{EngineInfo, Reply, system}
use indi_engine.Server.Hub.{Hub, broadcast}

-- What `get_service_info` gives, its first address as a text
pub record Service : Type 0 where
  pub properties : Dict String
  pub address : Option String
  pub port : ℕ

-- A call of the handler: the change, with the name of the service and its info
pub data Change : Type 0 where
  added removed : String → Option Service → Change
  updated : Change

abbrev pub or_text : String → Option String → String
or_text default none = default
or_text default (some s) = s

abbrev pub push_char : String → List String → List String
push_char c [] = c ∷ []
push_char c (s ∷ ss) = String.◌++◌ c s ∷ ss

-- text.split(",")
unfoldable pub split_commas : String → List String
split_commas String.[] = "" ∷ []
split_commas (String.◌∷◌ c s) =
    let rest = split_commas s in
    let here = String.◌∷◌ c String.[] in if here == "," then "" ∷ rest else push_char here rest

unfoldable pub filled_only : List String → List String
filled_only [] = []
filled_only (s ∷ ss) = let rest = filled_only ss in if truthy s then s ∷ rest else rest

abbrev pub properties_of : Option Service → Dict String
properties_of none = []
properties_of (some s) = s.properties

-- The ids that the two branches read
abbrev pub added_id : Service → String
added_id s = or_text "" (lookup "engine_id" s.properties)

abbrev pub removed_id : String → Option Service → String
removed_id name info = or_text name (lookup "engine_id" (properties_of info))

unfoldable pub engine_info : String → Service → EngineInfo
engine_info name s = record {
  name = or_text name (lookup "name" s.properties);
  host = or_text "" s.address;
  port = s.port;
  capabilities = filled_only (split_commas (or_text "" (lookup "capabilities" s.properties)));
}

abbrev pub name_or : String → Option EngineInfo → String
name_or engine_id none = engine_id
name_or engine_id (some info) = info.name

module _ {py : Runtime} {Params : Type 0} where
  -- `_on_service_state_change`, on `known_engines` and the socket server
  unfoldable pub on_service_state_change :
      (ℕ → Bool)
      → String
      → Change
      → Dict EngineInfo × Hub (Reply py Params)
      → Dict EngineInfo × Hub (Reply py Params)
  on_service_state_change accepts own (added name none) (known, h) = (known, h)
  on_service_state_change accepts own (added name (some s)) (known, h) =
      if added_id s == own then (known, h) else (
        insert (added_id s) (engine_info name s) known,
        broadcast accepts none (system (Reply.engine_online (added_id s) (engine_info name s))) h,
      )
  on_service_state_change accepts own (removed name info) (known, h) =
      let id = removed_id name info in
      if id == own then (known, h) else (
        remove id known,
        broadcast accepts none (system (Reply.engine_offline id (name_or id (lookup id known)))) h,
      )
  on_service_state_change accepts own updated (known, h) = (known, h)

  unfoldable pub on_changes :
      (ℕ → Bool)
      → String
      → List Change
      → Dict EngineInfo × Hub (Reply py Params)
      → Dict EngineInfo × Hub (Reply py Params)
  on_changes accepts own [] state = state
  on_changes accepts own (c ∷ cs) state =
      on_changes accepts own cs (on_service_state_change accepts own c state)
