-- ===== src/Main/Callbacks.antt =====
-- The callbacks that indi_engine/main.py hangs into the INDI client, on the engine. `source` is the id of
-- the INDI server in the provenance. The pool that saves BLOBs takes one after the other.
pub mod Saved
use indi_engine.Base.{
  ℕ, String, Bool, true, false, not, ◌&&◌, Option, none, some, List, [], ◌∷◌, ◌++◌, if◌then◌else◌,
  ◌==◌,
}
use indi_engine.Base.Dict.{Dict, lookup, insert, keys, values}
use indi_engine.Classifier.{classify_device}
use indi_engine.Frames
use indi_engine.Frames.{Meta}
use indi_engine.IndiServer.{Manager}
use indi_engine.Protocol.Client.{Client}
use indi_engine.Protocol.Properties.{Value, Element, Property, Device}
use indi_engine.Protocol.Runtime.{Runtime}
use indi_engine.Protocol.Text.{truthy}
use indi_engine.Scripting.Runner.{Runner, BlobContext, get_blob_context_for_device}
use indi_engine.Server.Engine.{Reply, World, Engine, of_device, system}
use indi_engine.Server.Hub.{Packet, Hub, broadcast}
use indi_engine.Server.Serializer.{serialize_property, serialize_message}
use indi_engine.Transport.Bytes.{Bytes}

abbrev pub same_texts : List String → List String → Bool
same_texts [] [] = true
same_texts (s ∷ ss) (t ∷ ts) = s == t && same_texts ss ts
same_texts _ _ = false

abbrev pub context_in :
    {Params : Type 0} → String → Option (Runner Params) → Option (BlobContext Params)
context_in device none = none
context_in device (some r) = get_blob_context_for_device device r

abbrev pub run_of : {Params : Type 0} → Option (BlobContext Params) → Option String
run_of none = none
run_of (some ctx) = some ctx.run_id

abbrev pub capture_of : {Params : Type 0} → Option (BlobContext Params) → Option Params
capture_of none = none
capture_of (some ctx) = ctx.capture_params

module _ {py : Runtime} {M : Manager} {Params : Type 0} where
  -- `socket_server.broadcast` of a dict with the INDI server in its provenance
  abbrev pub broadcast_from :
      World py Params
      → String
      → Option String
      → Reply py Params
      → Engine py M Params
      → Engine py M Params
  broadcast_from w source device reply e = record e {
    hub =
        broadcast w.accepts none
          (record { device = device; provenance = some (source ∷ []); body = reply }) e.hub;
  }

  abbrev pub put_device : String → Device py → Engine py M Params → Client py → Engine py M Params
  put_device key d e c = record e { client = some (record c { devices = insert key d c.devices }) }

  -- The classification after a new property
  abbrev pub classify_in :
      World py Params
      → String
      → String
      → Client py
      → Option (Device py)
      → Engine py M Params
      → Engine py M Params
  classify_in w source key c none e = e
  classify_in w source key c (some d) e =
      let new_types = classify_device (keys d.properties) in
      if same_texts new_types d.device_types
      then e
      else broadcast_from w source (some d.name) (Reply.device_type new_types)
          (put_device key (record d { device_types = new_types }) e c)

  abbrev pub classify :
      World py Params
      → String
      → String
      → Option (Client py)
      → Engine py M Params
      → Engine py M Params
  classify w source key none e = e
  classify w source key (some c) e = classify_in w source key c (lookup key c.devices) e

  -- `_on_new_property`
  unfoldable pub on_new_property :
      World py Params → String → Property py → Engine py M Params → Engine py M Params
  on_new_property w source p e = classify w source p.device_name e.client (
      broadcast_from w source (some p.device_name)
        (Reply.property_message (serialize_property w.show "def" p)) e)

  -- `_on_update_property`
  unfoldable pub on_update_property :
      World py Params → String → Property py → Engine py M Params → Engine py M Params
  on_update_property w source p e =
      broadcast_from w source (some p.device_name)
        (Reply.property_message (serialize_property w.show "set" p)) e

  -- `_on_new_message`, `_on_universal_message`
  unfoldable pub on_new_message :
      World py Params → String → Device py → String → Engine py M Params → Engine py M Params
  on_new_message w source d text e =
      broadcast_from w source (some d.name)
        (Reply.property_message (serialize_message (some d.name) text none none none)) e

  unfoldable pub on_universal_message :
      World py Params → String → String → Engine py M Params → Engine py M Params
  on_universal_message w source text e =
      broadcast_from w source none
        (Reply.property_message (serialize_message none text none none none)) e

  abbrev pub announce_frame :
      World py Params → Meta × Dict Bytes → Engine py M Params → Engine py M Params
  announce_frame w (meta, files) e = record e {
    frames = some files;
    hub = broadcast w.accepts none (of_device meta.device (Reply.frame_ready meta)) e.hub;
  }

  abbrev pub save_in :
      World py Params
      → (Option Params → Bytes)
      → String
      → String
      → String
      → Bytes
      → String
      → Option (Dict Bytes)
      → Engine py M Params
      → Engine py M Params
  save_in w dump frame_id timestamp device image blob_format none e = e
  save_in w dump frame_id timestamp device image blob_format (some files) e =
      let ctx = context_in device e.runner in
      announce_frame w
        (Frames.save w.codec frame_id timestamp device image blob_format (run_of ctx)
          (dump (capture_of ctx)) files)
        e

  -- `_save_blob`, with the id and the time that the store makes up; `dump` writes the parameters of the
  -- capture as JSON.
  unfoldable pub save_blob :
      World py Params
      → (Option Params → Bytes)
      → String
      → String
      → String
      → Bytes
      → String
      → Engine py M Params
      → Engine py M Params
  save_blob w dump frame_id timestamp device image blob_format e =
      save_in w dump frame_id timestamp device image blob_format e.frames e

abbrev or_fits : String → String
or_fits fmt = if truthy fmt then fmt else ".fits"

module _ {py : Runtime} where
  abbrev blob_job : Element py → Value → List (Bytes × String)
  blob_job e (Value.text s) = []
  blob_job e (Value.bytes []) = []
  blob_job e (Value.bytes (b ∷ bs)) = (b ∷ bs, or_fits e.blob_format) ∷ []

  -- The jobs of `_on_new_blob`: the images with their formats
  unfoldable pub on_new_blob : List (Element py) → List (Bytes × String)
  on_new_blob [] = []
  on_new_blob (e ∷ es) = blob_job e e.value ++ on_new_blob es
