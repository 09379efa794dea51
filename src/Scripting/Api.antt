-- ===== src/Scripting/Api.antt =====
-- `IndiScriptApi` of indi_engine/scripting/api.py: what a script reads, and what it sends through the
-- client. The events of the run are flags here; `float` is Python's, of a text or of bytes, and
-- `none` when it raises. Values that a script sends are given as their `str`.
pub mod Wait
pub mod Ending
pub mod Hit
pub mod Pausing
pub mod Claims
mod Tests
use indi_engine.Base.{
  ℕ, String, Bool, true, false, not, ◌&&◌, ◌||◌, Option, none, some, List, [], ◌∷◌, if◌then◌else◌,
  ◌==◌,
}
use indi_engine.Base.Dict.{Dict, lookup, insert, keys}
use indi_engine.Base.Int.{pos}
use indi_engine.Base.Result.{Result, ok, err, Raised, script_cancelled_error, script_paused_error}
use indi_engine.Protocol.Client.{Client}
use indi_engine.Protocol.Client.Send.{
  send_new_number, send_new_text, send_new_switch, set_blob_mode,
}
use indi_engine.Protocol.Client.Session
use indi_engine.Protocol.Constants.{PropertyType, PropertyState, PropertyPerm, SwitchRule}
use indi_engine.Protocol.Properties.{Value, Element, Property, Device, new_element, new_property}
use indi_engine.Protocol.Runtime.{Runtime}
use indi_engine.Scripting.Runner
use indi_engine.Scripting.Runner.{Runner}
use indi_engine.Transport.Bytes.{Bytes}

-- The fields of `IndiScriptApi` with the client and the runner that it calls; `run_id` is empty when
-- the API has no run or no register.
pub record Api (py : Runtime) (Params : Type 0) : Type 0 where
  pub client : Client py
  pub runner : Runner Params
  pub run_id : String
  pub cancel : Bool
  pub pause_immediate : Bool
  pub pause_deferred : Bool
  pub last_checkpoint : Option Params

-- What `get_value` gives and a predicate is called with.
pub data ScriptValue (py : Runtime) : Type 0 where
  number : py.Float → ScriptValue py
  value : Value → ScriptValue py

module _ {py : Runtime} where
  abbrev property_in : String → Option (Device py) → Option (Property py)
  property_in name none = none
  property_in name (some d) = lookup name d.properties

  abbrev pub or_value : Option (py.Float) → Value → ScriptValue py
  or_value none v = value v
  or_value (some x) v = number x

  -- The value of an element, as scripts see it.
  unfoldable pub script_value : (Value → Option (py.Float)) → PropertyType → Value → ScriptValue py
  script_value float PropertyType.number v = or_value (float v) v
  script_value float _ v = value v

  abbrev value_in :
      (Value → Option (py.Float)) → PropertyType → Option (Element py) → Option (ScriptValue py)
  value_in float type none = none
  value_in float type (some e) = some (script_value float type e.value)

  -- The element's value in a property that may be absent.
  unfoldable pub value_of :
      (Value → Option (py.Float)) → String → Option (Property py) → Option (ScriptValue py)
  value_of float element none = none
  value_of float element (some p) = value_in float p.type (lookup element p.elements)

  unfoldable pub build_elements : Dict String → Dict (Element py) → Dict (Element py)
  build_elements [] es = es
  build_elements ((name, shown) ∷ values) es =
      build_elements values (insert name (new_element name shown) es)

  -- `_build_prop`
  unfoldable pub build_prop : String → String → PropertyType → Dict String → Property py
  build_prop device name type values = new_property device name type (build_elements values [])

module _ {py : Runtime} {Params : Type 0} where
  -- `devices`, `get_property`, `get_value`
  unfoldable pub devices : Api py Params → List String
  devices a = keys a.client.devices

  unfoldable pub get_property : String → String → Api py Params → Option (Property py)
  get_property device name a = property_in name (lookup device a.client.devices)

  unfoldable pub get_value :
      (Value → Option (py.Float))
      → String
      → String
      → String
      → Api py Params
      → Option (ScriptValue py)
  get_value float device name element a = value_of float element (get_property device name a)

  -- `_require_not_cancelled`, before the rest of a method
  abbrev pub require_not_cancelled :
      Api py Params → Result (Unit {0}) × Api py Params → Result (Unit {0}) × Api py Params
  require_not_cancelled a rest = if a.cancel then (err script_cancelled_error, a) else rest

  -- A call of the client
  abbrev pub with_client :
      Result (Unit {0}) × Client py → Api py Params → Result (Unit {0}) × Api py Params
  with_client (r, c) a = (r, record a { client = c })

  -- `set_number`, `set_text`, `set_switch`
  unfoldable pub set_number :
      Bool
      → (Bytes → String)
      → String
      → String
      → Dict String
      → Api py Params
      → Result (Unit {0}) × Api py Params
  set_number succeeds str_bytes device name values a = require_not_cancelled a (
      with_client
        (send_new_number succeeds str_bytes (build_prop device name PropertyType.number values)
          a.client)
        a)

  unfoldable pub set_text :
      Bool
      → (Bytes → String)
      → String
      → String
      → Dict String
      → Api py Params
      → Result (Unit {0}) × Api py Params
  set_text succeeds str_bytes device name values a = require_not_cancelled a (
      with_client
        (send_new_text succeeds str_bytes (build_prop device name PropertyType.text values)
          a.client)
        a)

  unfoldable pub set_switch :
      Bool
      → (Bytes → String)
      → String
      → String
      → Dict String
      → Api py Params
      → Result (Unit {0}) × Api py Params
  set_switch succeeds str_bytes device name values a = require_not_cancelled a (
      with_client
        (send_new_switch succeeds str_bytes (build_prop device name PropertyType.switch values)
          a.client)
        a)

  -- `connect_device`, `disconnect_device`
  unfoldable pub connect_device : Bool → String → Api py Params → Result (Unit {0}) × Api py Params
  connect_device succeeds device a =
      require_not_cancelled a (with_client (Session.connect_device succeeds device a.client) a)

  unfoldable pub disconnect_device :
      Bool → String → Api py Params → Result (Unit {0}) × Api py Params
  disconnect_device succeeds device a =
      require_not_cancelled a (with_client (Session.disconnect_device succeeds device a.client) a)

  -- `self._blob_register(device, self._run_id, capture_params)`, if the API has both
  abbrev pub register_blob : String → Option Params → Api py Params → Api py Params
  register_blob device capture_params a =
      if a.run_id == ""
      then a
      else record a { runner = Runner.register_blob_device device a.run_id capture_params a.runner }

  abbrev pub then_register :
      String → Option Params → Result (Unit {0}) × Api py Params → Result (Unit {0}) × Api py Params
  then_register device capture_params (err e, a) = (err e, a)
  then_register device capture_params (ok u, a) = (ok tt, register_blob device capture_params a)

  -- `enable_blobs`, `update_blob_params`
  unfoldable pub enable_blobs :
      Bool → String → String → Option Params → Api py Params → Result (Unit {0}) × Api py Params
  enable_blobs succeeds device mode capture_params a = require_not_cancelled a (
      then_register device capture_params
        (with_client (set_blob_mode succeeds mode device "" a.client) a))

  unfoldable pub update_blob_params :
      String → Option Params → Api py Params → Result (Unit {0}) × Api py Params
  update_blob_params device capture_params a =
      require_not_cancelled a (ok tt, register_blob device capture_params a)

  -- `checkpoint`; its ScriptPausedError carries the checkpoint that it has stored.
  unfoldable pub checkpoint : Params → Api py Params → Result (Unit {0}) × Api py Params
  checkpoint resume_params a = require_not_cancelled a (
      let a' = record a { last_checkpoint = some resume_params } in
      if a.pause_immediate || a.pause_deferred then (err script_paused_error, a') else (ok tt, a'))
