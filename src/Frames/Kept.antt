-- ===== src/Frames/Kept.antt =====
-- A frame between `save` and `delete`.
use Prim.Native.String.{◌++◌ as ◌+s◌}
use indi_engine.Base.{
  String, true, false, Option, none, some, ◌≡◌, ◌≢◌, refl, arith, ◌==◌, eq_iff, length,
}
use indi_engine.Base.Dict.{Dict, lookup, insert, remove, lookup-insert, lookup-remove}
use indi_engine.Base.Result.{ok, err, value_error, file_not_found}
use indi_engine.Frames.{Meta, Codec, stored_format, stored_data, meta_file, save, get, delete}
use indi_engine.Transport.Bytes.{Bytes}

-- `get` after `save` gives the stored bytes and the metadata that `save` returned, with the hash and
-- the size of these bytes, if JSON reads back that metadata and the image's name is not the metadata
-- file's (the format is not `.json`).
pub get-save :
    (codec : Codec) (frame_id timestamp device : String) (blob : Bytes) (blob_format : String)
    (run_id : Option String) (capture : Bytes) (files : Dict Bytes)
    → codec.loads
        (codec.dumps (save codec frame_id timestamp device blob blob_format run_id capture files).0)
      ≡ some (save codec frame_id timestamp device blob blob_format run_id capture files).0
    → (frame_id +s stored_format codec blob_format) ≢ meta_file frame_id
    → let (meta, files') =
        save codec frame_id timestamp device blob blob_format run_id capture files in
      let bytes = stored_data codec blob_format blob in
      (get codec frame_id files' ≡ ok (bytes, meta))
      × (meta.hash ≡ codec.sha256 bytes)
      × (meta.size ≡ length bytes)
unfolding save get
get-save codec frame_id timestamp device blob blob_format run_id capture files back apart =
    let file = meta_file frame_id in
    let image = frame_id +s stored_format codec blob_format in
    let bytes = stored_data codec blob_format blob in
    let images = insert image bytes files in
    let meta = (save codec frame_id timestamp device blob blob_format run_id capture files).0 in
    let here : lookup file (insert file (codec.dumps meta) images) ≡ some (codec.dumps meta) =
      ground (arith, lookup-insert file file (codec.dumps meta) images, eq_iff file file) in
    let there : lookup image (insert file (codec.dumps meta) images) ≡ some bytes = ground (
      arith,
      lookup-insert file image (codec.dumps meta) images,
      eq_iff file image,
      lookup-insert image image bytes files,
      eq_iff image image,
    ) in
    (rw (here, back, there) refl, refl, refl)

-- `delete` of a stored frame, whose image's name is not the metadata file's, with another hash than its
-- own raises ValueError and leaves every file; with its own hash it removes the metadata file and the
-- image file, so that `get` raises FileNotFoundError, and no other file.
pub delete-hash :
    (codec : Codec) (frame_id hash_ : String) (text : Bytes) (meta : Meta) (files : Dict Bytes)
    → lookup (meta_file frame_id) files ≡ some text
    → codec.loads text ≡ some meta
    → (frame_id +s meta.format) ≢ meta_file frame_id
    → (meta.hash ≢ hash_ → delete codec frame_id hash_ files ≡ (err value_error, files))
      × (meta.hash ≡ hash_
          → let r = delete codec frame_id hash_ files in
            (r.0 ≡ ok tt)
            × (get codec frame_id r.1 ≡ err file_not_found)
            × (lookup (meta_file frame_id) r.1 ≡ none)
            × (lookup (frame_id +s meta.format) r.1 ≡ none)
            × ((other : String)
                → meta_file frame_id ≢ other
                → (frame_id +s meta.format) ≢ other
                → lookup other r.1 ≡ lookup other files))
unfolding delete get
delete-hash codec frame_id hash_ text meta files at parsed apart =
    let file = meta_file frame_id in
    let image = frame_id +s meta.format in
    let gone : lookup file (remove file (remove image files)) ≡ none =
      ground (arith, lookup-remove file file (remove image files), eq_iff file file) in
    let kept : lookup file (remove image files) ≡ some text =
      ground (arith, at, lookup-remove image file files, eq_iff image file) in
    rw (at, parsed)
      (
        λ other.
            let off : (meta.hash == hash_) ≡ false = ground (arith, eq_iff meta.hash hash_) in
            rw off refl,
        λ same.
            let on : (meta.hash == hash_) ≡ true = ground (arith, eq_iff meta.hash hash_) in
            rw (on, kept)
              (
                refl,
                rw gone refl,
                gone,
                ground (
                  arith,
                  lookup-remove file image (remove image files),
                  lookup-remove image image files,
                  eq_iff image image,
                ),
                λ other a b. ground (
                  arith,
                  lookup-remove file other (remove image files),
                  lookup-remove image other files,
                  eq_iff file other,
                  eq_iff image other,
                ),
              ),
      )
