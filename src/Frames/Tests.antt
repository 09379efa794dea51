-- ===== src/Frames/Tests.antt =====
-- Runs of the frame store at fixed inputs.
use Prim.Native.String.{◌++◌ as ◌+s◌}
use indi_engine.Base.{String, none, some, [], ◌∷◌, ◌≡◌, ◌≢◌, refl, ◌==◌, eq_iff, true}
use indi_engine.Base.Dict.{Dict, lookup}
use indi_engine.Base.Result.{ok, err, value_error, file_not_found}
use indi_engine.Frames.{Meta, Codec, meta_file, get, delete}
use indi_engine.Frames.Kept.{delete-hash}
use indi_engine.Transport.Bytes.{Bytes}

-- The metadata of a frame that is not compressed.
abbrev frame : Meta
frame = record {
  frame_id = "f1";
  device = "Cam";
  run_id = none;
  timestamp = "t";
  hash = "h";
  size = 3;
  format = ".fits";
  capture = [];
}

abbrev codec : Codec
codec = record {
  sha256 = λ blob. "h";
  decompress = λ blob. none;
  lower = λ s. s;
  without_z = λ s. none;
  dumps = λ m. 123 ∷ [];
  loads = λ text. some frame;
}

abbrev image : Bytes
image = 1 ∷ 2 ∷ 3 ∷ []

other : ("f1.fits" == "f1.json") ≡ true → ⊥
other same = cc

abbrev files : Dict Bytes
files = ("f1.fits", image) ∷ ("f1.json", 123 ∷ []) ∷ []

there : lookup (meta_file "f1") files ≡ some (123 ∷ [])
unfolding lookup
there = refl

apart_here : ("f1" +s frame.format) ≢ meta_file "f1"
apart_here same = other ((eq_iff "f1.fits" "f1.json").1 same)

delete-hash_example :
    (frame.hash ≢ "h" → delete codec "f1" "h" files ≡ (err value_error, files))
    × (frame.hash ≡ "h"
        → let r = delete codec "f1" "h" files in
          (r.0 ≡ ok tt)
          × (get codec "f1" r.1 ≡ err file_not_found)
          × (lookup (meta_file "f1") r.1 ≡ none)
          × (lookup ("f1" +s frame.format) r.1 ≡ none)
          × ((other : String)
              → meta_file "f1" ≢ other
              → ("f1" +s frame.format) ≢ other
              → lookup other r.1 ≡ lookup other files))
delete-hash_example = delete-hash codec "f1" "h" (123 ∷ []) frame files there refl apart_here
