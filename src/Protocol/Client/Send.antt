-- ===== src/Protocol/Client/Send.antt =====
-- The commands that `PurePythonIndiClient` sends, in indi_engine/indi/protocol/client.py:
-- `sendNewNumber`, `sendNewText`, `sendNewSwitch` and `setBLOBMode`, with the cached
-- `target_value` that they write first. `str_bytes` is `str` of a bytes object, and a flag says
-- whether the socket takes the text. Values given by a caller are texts here.
pub mod Targets
pub mod Escape
use Prim.Native.Char.{Char}
use Prim.Native.String
use Prim.Native.String.{◌++◌ as ◌+s◌}
use indi_engine.Base.{
  String, Bool, true, false, not, ◌&&◌, ◌||◌, Option, none, some, List, [], ◌∷◌, if◌then◌else◌,
  ◌==◌,
}
use indi_engine.Base.Dict.{Dict, lookup, insert, values}
use indi_engine.Base.Result.{Result, ok, err, Raised, value_error, type_error, ◌>>=◌}
use indi_engine.Protocol.Client.{Client}
use indi_engine.Protocol.Client.Session.{require_connected, send_xml}
use indi_engine.Protocol.Properties.{Value, Element, Property, Device}
use indi_engine.Protocol.Runtime.{Runtime}
use indi_engine.Protocol.Text.{truthy}
use indi_engine.Transport.Bytes.{Bytes}

-- s.replace(c, by), for a character c
unfoldable pub replace : String → String → String → String
replace c by String.[] = ""
replace c by (String.◌∷◌ d s) =
    let rest = replace c by s in
    if String.◌∷◌ d String.[] == c then by +s rest else String.◌∷◌ d rest

-- `_escape_xml`
unfoldable pub escape_xml : String → String
escape_xml s =
    replace "'" "&apos;"
      (replace "\"" "&quot;" (replace ">" "&gt;" (replace "<" "&lt;" (replace "&" "&amp;" s))))

-- `str(value)`
abbrev pub str : (Bytes → String) → Value → String
str str_bytes (Value.text s) = s
str str_bytes (Value.bytes b) = str_bytes b

-- `self._escape_xml(elem.value)`: a bytes object has no `replace` of texts.
abbrev pub escape_value : Value → Result String
escape_value (Value.text s) = ok (escape_xml s)
escape_value (Value.bytes b) = err type_error

abbrev pub one_element : String → String → String → String → String → String → String
one_element vector tag device name elem shown =
    "<" +s vector +s " device=\"" +s device +s "\" name=\"" +s name +s "\">" +s "<" +s tag
    +s " name=\"" +s elem +s "\">" +s shown +s "</" +s tag +s ">" +s "</" +s vector +s ">"

module _ {py : Runtime} where
  abbrev pub aim_element :
      String → Value → Option (Element py) → Dict (Element py) → Dict (Element py)
  aim_element elem v none es = es
  aim_element elem v (some e) es = insert elem (record e { target_value = some v }) es

  abbrev pub aim_property :
      String → String → Value → Option (Property py) → Dict (Property py) → Dict (Property py)
  aim_property name elem v none ps = ps
  aim_property name elem v (some p) ps =
      insert name (record p { elements = aim_element elem v (lookup elem p.elements) p.elements })
        ps

  abbrev pub aim_device :
      String → String → String → Value → Option (Device py) → Dict (Device py) → Dict (Device py)
  aim_device device name elem v none ds = ds
  aim_device device name elem v (some d) ds =
      insert device
        (record d { properties = aim_property name elem v (lookup name d.properties) d.properties })
        ds

  -- `cached_elem.target_value = v`, if the client has the device, its property and its element
  unfoldable pub set_target : String → String → String → Value → Client py → Client py
  set_target device name elem v c = record c {
    devices = aim_device device name elem v (lookup device c.devices) c.devices;
  }

  -- The first loop of the full form of the three commands.
  unfoldable pub set_targets :
      (Bytes → String) → String → String → List (Element py) → Client py → Client py
  set_targets str_bytes device name [] c = c
  set_targets str_bytes device name (e ∷ es) c =
      set_targets str_bytes device name es
        (set_target device name e.name (Value.text (str str_bytes e.value)) c)

  -- The lines of the second loop, joined by newlines; `show` is what stands between the tags.
  unfoldable pub element_lines :
      String → (Value → Result String) → List (Element py) → Result String
  element_lines tag show [] = ok ""
  element_lines tag show (e ∷ es) = show e.value >>= (λ v. element_lines tag show es >>= (λ rest.
      ok ("\n  <" +s tag +s " name=\"" +s e.name +s "\">" +s v +s "</" +s tag +s ">" +s rest)))

  abbrev pub send_lines :
      Bool → String → String → String → Result String → Client py → Result (Unit {0}) × Client py
  send_lines succeeds vector device name (err e) c = (err e, c)
  send_lines succeeds vector device name (ok lines) c =
      send_xml succeeds
        ("<" +s vector +s " device=\"" +s device +s "\" name=\"" +s name +s "\">" +s lines +s "\n</"
          +s vector +s ">")
        c

  abbrev pub send_property :
      Bool
      → (Bytes → String)
      → String
      → String
      → (Value → Result String)
      → Property py
      → Client py
      → Result (Unit {0}) × Client py
  send_property succeeds str_bytes vector tag show p c = require_connected c (
      send_lines succeeds vector p.device_name p.name (element_lines tag show (values p.elements))
        (set_targets str_bytes p.device_name p.name (values p.elements) c))

  -- `sendNewNumber(prop)`, `sendNewText(prop)`, `sendNewSwitch(prop)`
  unfoldable pub send_new_number :
      Bool → (Bytes → String) → Property py → Client py → Result (Unit {0}) × Client py
  send_new_number succeeds str_bytes p c =
      send_property succeeds str_bytes "newNumberVector" "oneNumber" (λ v. ok (str str_bytes v)) p c

  unfoldable pub send_new_text :
      Bool → (Bytes → String) → Property py → Client py → Result (Unit {0}) × Client py
  send_new_text succeeds str_bytes p c =
      send_property succeeds str_bytes "newTextVector" "oneText" escape_value p c

  unfoldable pub send_new_switch :
      Bool → (Bytes → String) → Property py → Client py → Result (Unit {0}) × Client py
  send_new_switch succeeds str_bytes p c =
      send_property succeeds str_bytes "newSwitchVector" "oneSwitch" (λ v. ok (str str_bytes v)) p c

  -- The forms with the names of a device, a property and an element, and the value.
  unfoldable pub send_one_number :
      Bool → String → String → String → String → Client py → Result (Unit {0}) × Client py
  send_one_number succeeds device name elem value c = require_connected c (
      send_xml succeeds (one_element "newNumberVector" "oneNumber" device name elem value)
        (set_target device name elem (Value.text value) c))

  unfoldable pub send_one_text :
      Bool → String → String → String → String → Client py → Result (Unit {0}) × Client py
  send_one_text succeeds device name elem value c = require_connected c (
      send_xml succeeds (one_element "newTextVector" "oneText" device name elem (escape_xml value))
        (set_target device name elem (Value.text value) c))

  unfoldable pub send_one_switch :
      Bool → String → String → String → Client py → Result (Unit {0}) × Client py
  send_one_switch succeeds device name elem c = require_connected c (
      send_xml succeeds (one_element "newSwitchVector" "oneSwitch" device name elem "On")
        (set_target device name elem (Value.text "On") c))

  -- `setBLOBMode`, its mode as a text
  unfoldable pub set_blob_mode :
      Bool → String → String → String → Client py → Result (Unit {0}) × Client py
  set_blob_mode succeeds mode device property c = require_connected c (
      if not (mode == "Never" || mode == "Also" || mode == "Only")
      then (err value_error, c)
      else send_xml succeeds
          (if truthy property
            then "<enableBLOB device=\"" +s device +s "\" name=\"" +s property +s "\">" +s mode
              +s "</enableBLOB>"
            else "<enableBLOB device=\"" +s device +s "\">" +s mode +s "</enableBLOB>")
          c)
