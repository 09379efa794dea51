-- ===== src/Server/Engine/New/Aimed.antt =====
-- What a `new` command leaves in the INDI client: the targets of the elements that it names.
use indi_engine.Base.{
  String, Bool, true, false, ◌&&◌, some, [], ◌≡◌, refl, ap, ◌∙◌, arith, if◌then◌else◌, ◌==◌,
}
use indi_engine.Base.Dict.{Dict, lookup, values}
use indi_engine.Base.Result.{Result, ok, err}
use indi_engine.IndiServer.{Manager}
use indi_engine.Protocol.Client.{Client}
use indi_engine.Protocol.Client.Send.{
  send_new_number, send_new_text, send_new_switch, set_targets, str, send_property, send_lines,
  escape_value,
}
use indi_engine.Protocol.Client.Send.Targets.{element_of}
use indi_engine.Protocol.Client.Session.{send_xml}
use indi_engine.Protocol.Properties.{Value, Element, Property, new_property}
use indi_engine.Protocol.Runtime.{Runtime}
use indi_engine.Server.Engine.{Command, World, Engine, or_blank}
use indi_engine.Server.Engine.New.{
  command_elements, build_iproperty_from_command, new_on_client, handle_new, is_malformed, forward,
  forward_built, or_unknown, type_map,
}
use indi_engine.Transport.Bytes.{Bytes}
use indi_engine.Server.Engine.New.Given.{
  last_given, is_forwarded, aimed_at, aim_all, set_targets-element_of, aim_all-values,
  command_elements-lookup, given_aimed,
}

module _ {py : Runtime} where
  send_xml-devices :
      (takes : Bool) (xml : String) (c : Client py) → (send_xml takes xml c).1.devices ≡ c.devices
  unfolding send_xml
  send_xml-devices takes xml c = refl

  send_lines-devices :
      (takes : Bool) (vector device name : String) (lines : Result String) (c : Client py)
      → (send_lines takes vector device name lines c).1.devices ≡ c.devices
  send_lines-devices takes vector device name (err e) c = refl
  send_lines-devices takes vector device name (ok lines) c = send_xml-devices takes _ c

  send_property-devices :
      (takes : Bool) (str_bytes : Bytes → String) (vector tag : String)
      (show : Value → Result String) (p : Property py) (c : Client py)
      → c.transport.connected ≡ true
      → (send_property takes str_bytes vector tag show p c).1.devices
        ≡ (set_targets str_bytes p.device_name p.name (values p.elements) c).devices
  send_property-devices takes str_bytes vector tag show p c up =
      simp (up) (send_lines-devices takes vector p.device_name p.name _ _)

module _ {py : Runtime} {Params : Type 0} where
  forward-devices :
      (w : World py Params) (data_type : String) (p : Property py) (c : Client py)
      → c.transport.connected ≡ true
      → is_forwarded data_type ≡ true
      → (forward w data_type p c).1.devices
        ≡ (set_targets w.str_bytes p.device_name p.name (values p.elements) c).devices
  unfolding send_new_number send_new_text send_new_switch
  forward-devices w data_type p c up known =
      let numbers =
        send_property-devices w.indi_takes w.str_bytes "newNumberVector" "oneNumber"
          (λ v. ok (str w.str_bytes v)) p c up in
      let texts =
        send_property-devices w.indi_takes w.str_bytes "newTextVector" "oneText" escape_value p c
          up in
      let switches =
        send_property-devices w.indi_takes w.str_bytes "newSwitchVector" "oneSwitch"
          (λ v. ok (str w.str_bytes v)) p c up in
      ground (arith, known, numbers, texts, switches)

  forwarded :
      (w : World py Params) (cmd : Command Params) (c : Client py) (es : Dict (Element py))
      (j r i : String)
      → is_forwarded (or_blank cmd.data_type) ≡ true
      → c.transport.connected ≡ true
      → command_elements cmd.elements [] ≡ ok es
      → element_of j r i
          (forward_built w (or_blank cmd.data_type) (build_iproperty_from_command cmd) c).1.devices
        ≡ (if or_blank cmd.device == j && or_blank cmd.property == r
            then aimed_at (last_given i cmd.elements) (element_of j r i c.devices)
            else element_of j r i c.devices)
  unfolding build_iproperty_from_command lookup
  forwarded w cmd c es j r i known up made =
      let type = or_unknown (lookup (or_blank cmd.data_type) type_map) in
      let p : Property py = new_property (or_blank cmd.device) (or_blank cmd.property) type es in
      let o = element_of j r i c.devices in
      let (filed, found) = command_elements-lookup i cmd.elements [] es tt made in
      let aims : aim_all w.str_bytes i (values es) o ≡ aimed_at (last_given i cmd.elements) o =
        aim_all-values w.str_bytes i es o filed
        ∙ rw found (given_aimed w.str_bytes i (last_given i cmd.elements) o) in
      rw made (
        ap (element_of j r i) (forward-devices w (or_blank cmd.data_type) p c up known)
        ∙ set_targets-element_of w.str_bytes p.device_name p.name j r i (values es) c
        ∙ rw aims refl)

module _ {py : Runtime} {M : Manager} {Params : Type 0} where
  -- A `new` command of numbers, texts or switches that is not malformed and names all its elements, for a
  -- client with a connection, whether or not the text can then be sent: each element of the property that
  -- the client has and that the command names gets as its target the last value that the command gives it,
  -- and no other element changes.
  pub handle_new-targets :
      (w : World py Params) (cmd : Command Params) (c : Client py) (e : Engine py M Params)
      (es : Dict (Element py)) (j r i : String)
      → e.client ≡ some c
      → is_malformed cmd ≡ false
      → is_forwarded (or_blank cmd.data_type) ≡ true
      → c.transport.connected ≡ true
      → command_elements cmd.elements [] ≡ ok es
      → (c' : Client py) × ((handle_new w cmd e).1.client ≡ some c')
        × (element_of j r i c'.devices ≡ (
            if or_blank cmd.device == j && or_blank cmd.property == r
            then aimed_at (last_given i cmd.elements) (element_of j r i c.devices)
            else element_of j r i c.devices))
  unfolding handle_new new_on_client
  handle_new-targets w cmd c e es j r i has well known up made = (
    (forward_built w (or_blank cmd.data_type) (build_iproperty_from_command cmd) c).1,
    ap (λ o. (new_on_client w cmd o).1) has ∙ rw well refl,
    forwarded w cmd c es j r i known up made,
  )
