-- ===== src/Frames.antt =====
-- `FrameStore` of indi_engine/frames/store.py over a directory, a map from file names to bytes.
-- Python's `json`, SHA-256, gzip and the lower case of a text are parameters, and so are the frame's
-- id (`uuid4`) and the time, which `save` makes up.
pub mod Kept
mod Tests
use Prim.Native.String
use Prim.Native.String.{◌++◌ as ◌+s◌}
use indi_engine.Base.{
  ℕ, String, Bool, true, false, not, Option, none, some, List, [], ◌∷◌, if◌then◌else◌, ◌==◌, length,
}
use indi_engine.Base.Dict.{Dict, lookup, insert, remove, has_key}
use indi_engine.Base.Result.{Result, ok, err, Raised, value_error, file_not_found}
use indi_engine.Transport.Bytes.{Bytes}

pub record Meta : Type 0 where
  pub frame_id : String
  pub device : String
  pub run_id : Option String
  pub timestamp : String
  pub hash : String
  pub size : ℕ
  pub format : String
  pub capture : Bytes

-- What the store takes from the libraries. `none` stands for an exception; `without_z` gives what
-- stands before a `.z` at the end of a text.
pub record Codec : Type 0 where
  pub sha256 : Bytes → String
  pub decompress : Bytes → Option Bytes
  pub lower : String → String
  pub without_z : String → Option String
  pub dumps : Meta → Bytes
  pub loads : Bytes → Option Meta

abbrev pub or_data : Option Bytes → Bytes → Bytes
or_data none blob = blob
or_data (some plain) blob = plain

abbrev pub stem_of : Option String → String → String
stem_of none fmt = fmt
stem_of (some stem) fmt = stem

abbrev pub plain_of : Codec → Option String → Bytes → Bytes
plain_of codec none blob = blob
plain_of codec (some stem) blob = or_data (codec.decompress blob) blob

-- The format that `save` stores
unfoldable pub stored_format : Codec → String → String
stored_format codec blob_format =
    let fmt = codec.lower blob_format in
    let stem = stem_of (codec.without_z fmt) fmt in if stem == "" then ".fits" else stem

-- The bytes that `save` stores
unfoldable pub stored_data : Codec → String → Bytes → Bytes
stored_data codec blob_format blob = plain_of codec (codec.without_z (codec.lower blob_format)) blob

abbrev pub meta_file : String → String
meta_file frame_id = frame_id +s ".json"

-- `save`; it returns the metadata.
unfoldable pub save :
    Codec
    → String
    → String
    → String
    → Bytes
    → String
    → Option String
    → Bytes
    → Dict Bytes
    → Meta × Dict Bytes
save codec frame_id timestamp device blob blob_format run_id capture files =
    let fmt = stored_format codec blob_format in
    let bytes = stored_data codec blob_format blob in
    let meta : Meta = record {
      frame_id = frame_id;
      device = device;
      run_id = run_id;
      timestamp = timestamp;
      hash = codec.sha256 bytes;
      size = length bytes;
      format = fmt;
      capture = capture;
    } in
    (meta, insert (meta_file frame_id) (codec.dumps meta) (insert (frame_id +s fmt) bytes files))

abbrev pub read_image : Option Bytes → Meta → Result (Bytes × Meta)
read_image none meta = err file_not_found
read_image (some blob) meta = ok (blob, meta)

abbrev pub get_parsed : String → Dict Bytes → Option Meta → Result (Bytes × Meta)
get_parsed frame_id files none = err value_error
get_parsed frame_id files (some meta) = read_image (lookup (frame_id +s meta.format) files) meta

abbrev pub get_at : Codec → String → Dict Bytes → Option Bytes → Result (Bytes × Meta)
get_at codec frame_id files none = err file_not_found
get_at codec frame_id files (some text) = get_parsed frame_id files (codec.loads text)

-- `get`
unfoldable pub get : Codec → String → Dict Bytes → Result (Bytes × Meta)
get codec frame_id files = get_at codec frame_id files (lookup (meta_file frame_id) files)

-- `path.unlink()`
abbrev pub unlink : String → Dict Bytes → Result (Unit {0}) × Dict Bytes
unlink file files =
    if has_key file files then (ok tt, remove file files) else (err file_not_found, files)

abbrev pub delete_parsed :
    String → String → Dict Bytes → Option Meta → Result (Unit {0}) × Dict Bytes
delete_parsed frame_id hash_ files none = (err value_error, files)
delete_parsed frame_id hash_ files (some meta) =
    if not (meta.hash == hash_)
    then (err value_error, files)
    else unlink (meta_file frame_id) (remove (frame_id +s meta.format) files)

abbrev pub delete_at :
    Codec → String → String → Dict Bytes → Option Bytes → Result (Unit {0}) × Dict Bytes
delete_at codec frame_id hash_ files none = (err file_not_found, files)
delete_at codec frame_id hash_ files (some text) =
    delete_parsed frame_id hash_ files (codec.loads text)

-- `delete`
unfoldable pub delete : Codec → String → String → Dict Bytes → Result (Unit {0}) × Dict Bytes
delete codec frame_id hash_ files =
    delete_at codec frame_id hash_ files (lookup (meta_file frame_id) files)

abbrev with_meta : Option Meta → List Meta → List Meta
with_meta none metas = metas
with_meta (some meta) metas = meta ∷ metas

-- The loop of `list`; a file that JSON does not read is left out.
unfoldable pub read_metas : Codec → (String → Bool) → Dict Bytes → List Meta
read_metas codec is_json [] = []
read_metas codec is_json ((file, text) ∷ files) =
    let rest = read_metas codec is_json files in
    if is_json file then with_meta (codec.loads text) rest else rest

-- `list`; `is_json` says whether a file's name matches `*.json`, and `newest_first` sorts by the time.
unfoldable pub list : Codec → (String → Bool) → (List Meta → List Meta) → Dict Bytes → List Meta
list codec is_json newest_first files = newest_first (read_metas codec is_json files)
