-- ===== src/Main/Callbacks/Saved.antt =====
-- What the callbacks of indi_engine/main.py leave in the engine.
use Prim.Native.String.{◌++◌ as ◌+s◌}
use indi_engine.Base.{
  ℕ, String, true, Option, none, some, List, [], ◌∷◌, ◌≡◌, ◌≢◌, refl, sym, ap, ◌∙◌, arith, eq_iff,
  Bool-cases, Option-cases, inl, inr,
}
use indi_engine.Base.Dict.{Dict, lookup, keys, lookup-insert}
use indi_engine.Base.Result.{ok}
use indi_engine.Classifier.{classify_device}
use indi_engine.Frames
use indi_engine.Frames.{Meta, meta_file, stored_format, stored_data}
use indi_engine.Frames.Kept.{get-save}
use indi_engine.IndiServer.{Manager}
use indi_engine.Main.Callbacks.{
  same_texts, on_new_property, save_blob, save_in, context_in, run_of, capture_of, classify_in,
  classify,
}
use indi_engine.Protocol.Client.{Client}
use indi_engine.Protocol.Properties.{Property, Device}
use indi_engine.Protocol.Runtime.{Runtime}
use indi_engine.Server.Engine.{Command, Reply, World, Engine, of_device, send_to}
use indi_engine.Server.Engine.Images.{handle_frame_control, frame_action}
use indi_engine.Server.Hub.{broadcast}
use indi_engine.Transport.Bytes.{Bytes}

same_texts_eq : (ss ts : List String) → same_texts ss ts ≡ true → ss ≡ ts
same_texts_eq [] [] h = refl
same_texts_eq [] (t ∷ ts) h = absurd (cc h)
same_texts_eq (s ∷ ss) [] h = absurd (cc h)
same_texts_eq (s ∷ ss) (t ∷ ts) h = ground (arith, h, eq_iff s t, same_texts_eq ss ts)

module _ {py : Runtime} where
  -- The types that the client's device has
  abbrev pub types_of : Option (Device py) → Option (List String)
  types_of none = none
  types_of (some d) = some d.device_types

  abbrev pub device_in : String → Option (Client py) → Option (Device py)
  device_in key none = none
  device_in key (some c) = lookup key c.devices

  abbrev pub right_types : Option (Device py) → Option (List String)
  right_types none = none
  right_types (some d) = some (classify_device (keys d.properties))

module _ {py : Runtime} {Params : Type 0} where
  frame_found :
      (w : World py Params) (cmd : Command Params) (frame_id : String) (files : Dict Bytes)
      (image : Bytes) (meta : Meta)
      → cmd.action ≡ some "get"
      → cmd.frame_id ≡ some frame_id
      → Frames.get w.codec frame_id files ≡ ok (image, meta)
      → frame_action w cmd files
        ≡ (of_device meta.device (Reply.frame_data frame_id meta image), files)
  unfolding frame_action
  frame_found w cmd frame_id files image meta asks names found = simp (asks, names, found) refl

module _ {py : Runtime} {M : Manager} {Params : Type 0} where
  classify-types :
      (w : World py Params) (source key : String) (c : Client py) (d : Device py)
      (e : Engine py M Params)
      → e.client ≡ some c
      → lookup key c.devices ≡ some d
      → types_of (device_in key (classify_in w source key c (some d) e).client)
        ≡ some (classify_device (keys d.properties))
  classify-types w source key c d e has there =
      let types = classify_device (keys d.properties) in
      elim (Bool-cases (same_texts types d.device_types)) [
        | inl same ↦
            rw (same, has, there)
              (ap (λ ts. some ts) (sym (same_texts_eq types d.device_types same)))
        | inr new ↦
            rw (new, lookup-insert key key (record d { device_types = types }) c.devices)
              (ground (arith, eq_iff key key))
      ]

  classified :
      (w : World py Params) (source key : String) (o : Option (Client py)) (e : Engine py M Params)
      → e.client ≡ o
      → types_of (device_in key (classify w source key o e).client) ≡ right_types (device_in key o)
  classified w source key none e has = ap (λ c. types_of (device_in key c)) has
  classified w source key (some c) e has = elim (Option-cases (lookup key c.devices)) [
    | inl absent ↦ rw absent (ap (λ c. types_of (device_in key c)) has ∙ ap types_of absent)
    | inr (d, there) ↦ rw there (classify-types w source key c d e has there)
  ]

  -- After a new property the device that the client has under the property's device name, if there is one,
  -- has the types that its properties give.
  pub on_new_property-types :
      (w : World py Params) (source : String) (p : Property py) (e : Engine py M Params)
      → types_of (device_in p.device_name (on_new_property w source p e).client)
        ≡ right_types (device_in p.device_name e.client)
  unfolding on_new_property
  on_new_property-types w source p e = classified w source p.device_name e.client _ refl

  -- For an engine with a frame store, if JSON reads back the metadata that is stored and the image's name is not
  -- the metadata file's: a BLOB that is saved is announced to the clients of its device, with the run that
  -- had claimed the device; and a client that asks for the announced id is sent the stored image with that
  -- metadata.
  pub save_blob-get :
      (w : World py Params) (dump : Option Params → Bytes) (frame_id timestamp device : String)
      (image : Bytes) (blob_format : String) (cmd : Command Params) (conn : ℕ) (files : Dict Bytes)
      (e : Engine py M Params)
      → let ctx = context_in device e.runner in
        let (meta, files') =
          Frames.save w.codec frame_id timestamp device image blob_format
            (run_of ctx)
            (dump (capture_of ctx))
            files in
        let e' = save_blob w dump frame_id timestamp device image blob_format e in
        e.frames ≡ some files
        → w.codec.loads (w.codec.dumps meta) ≡ some meta
        → (frame_id +s stored_format w.codec blob_format) ≢ meta_file frame_id
        → cmd.action ≡ some "get"
        → cmd.frame_id ≡ some frame_id
        → (meta.run_id ≡ run_of ctx)
          × (e'.hub ≡ broadcast w.accepts none (of_device device (Reply.frame_ready meta)) e.hub)
          × ((handle_frame_control w cmd conn e').hub
              ≡ send_to w conn
                  (of_device device
                    (Reply.frame_data frame_id meta (stored_data w.codec blob_format image)))
                  e'.hub)
  unfolding save_blob handle_frame_control Frames.save
  save_blob-get w dump frame_id timestamp device image blob_format cmd conn files e stores back
        apart asks names =
      let ctx = context_in device e.runner in
      let saves : save_blob w dump frame_id timestamp device image blob_format e
          ≡ save_in w dump frame_id timestamp device image blob_format (some files) e =
        ap (λ o. save_in w dump frame_id timestamp device image blob_format o e) stores in
      let (got, hashed, sized) =
        get-save w.codec frame_id timestamp device image blob_format (run_of ctx)
          (dump (capture_of ctx)) files back apart in
      let (meta, files') =
        Frames.save w.codec frame_id timestamp device image blob_format (run_of ctx)
          (dump (capture_of ctx)) files in
      let found =
        frame_found w cmd frame_id files' (stored_data w.codec blob_format image) meta asks names
          got in
      let h' = broadcast w.accepts none (of_device device (Reply.frame_ready meta)) e.hub in
      rw saves (refl, refl, ap (λ o. send_to w conn o.0 h') found)
