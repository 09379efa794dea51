-- ===== src/Main/Tests.antt =====
-- Runs of the main program's parts at fixed inputs.
use Prim.Native.String.{◌++◌ as ◌+s◌}
use indi_engine.Base.{ℕ, ◌≢◌, Bool, true, Option, none, some, [], ◌∷◌, ◌≡◌, refl, ◌==◌, eq_iff}
use indi_engine.Base.Dict.{lookup}
use indi_engine.Base.Numbers.{◌==◌ as nat_eq}
use indi_engine.Frames
use indi_engine.Frames.{meta_file, stored_format, stored_data}
use indi_engine.Main.{connect_indi}
use indi_engine.Main.Attempts.{first_taken, HasEnded, connect_indi-ends}
use indi_engine.Main.Callbacks.{on_new_property, save_blob, context_in, run_of, capture_of}
use indi_engine.Main.Callbacks.Saved.{
  types_of, device_in, right_types, on_new_property-types, save_blob-get,
}
use indi_engine.Samples.{world, engine, client, command, filter_name}
use indi_engine.Scripting.Runner.{get_blob_context_for_device}
use indi_engine.Server.Engine.{Command, Reply, of_device, send_to}
use indi_engine.Server.Engine.Images.{handle_frame_control}
use indi_engine.Server.Hub.{broadcast}
use indi_engine.Transport.Bytes.{Bytes}

-- The socket takes the third attempt.
abbrev outcome : ℕ → Bool × Bool
outcome attempt = (nat_eq attempt 3, true)

connect_indi-ends_example : HasEnded 10 (first_taken outcome 1 10) (connect_indi outcome 10 client)
connect_indi-ends_example = connect_indi-ends outcome 10 client refl

taken : first_taken outcome 1 10 ≡ some 2
unfolding first_taken
taken = refl

on_new_property-types_example :
    types_of
      (device_in "Cam" (on_new_property world "indi://localhost:7624" filter_name engine).client)
    ≡ right_types (device_in "Cam" engine.client)
on_new_property-types_example =
    on_new_property-types world "indi://localhost:7624" filter_name engine

abbrev image : Bytes
image = 1 ∷ 2 ∷ 3 ∷ []

abbrev dump : Option ℕ → Bytes
dump none = []
dump (some n) = n ∷ []

abbrev gets : Command ℕ
gets = record command { type = some "frame_control"; action = some "get" }

back :
    let ctx = context_in "Cam" engine.runner in
    let meta =
      (Frames.save world.codec "f1" "t" "Cam" image ".fits"
        (run_of ctx)
        (dump (capture_of ctx))
        []).0 in
    world.codec.loads (world.codec.dumps meta) ≡ some meta
unfolding Frames.save stored_format stored_data get_blob_context_for_device lookup
back = refl

other : ("f1.fits" == "f1.json") ≡ true → ⊥
other same = cc

apart : ("f1" +s stored_format world.codec ".fits") ≢ meta_file "f1"
unfolding stored_format
apart same = other ((eq_iff "f1.fits" "f1.json").1 same)

save_blob-get_example :
    let ctx = context_in "Cam" engine.runner in
    let (meta, files') =
      Frames.save world.codec "f1" "t" "Cam" image ".fits"
        (run_of ctx)
        (dump (capture_of ctx))
        [] in
    let e' = save_blob world dump "f1" "t" "Cam" image ".fits" engine in
    (meta.run_id ≡ run_of ctx)
    × (e'.hub ≡ broadcast world.accepts none (of_device "Cam" (Reply.frame_ready meta)) engine.hub)
    × ((handle_frame_control world gets 1 e').hub
        ≡ send_to world 1
            (of_device "Cam" (Reply.frame_data "f1" meta (stored_data world.codec ".fits" image)))
            e'.hub)
save_blob-get_example =
    save_blob-get world dump "f1" "t" "Cam" image ".fits" gets 1 [] engine refl back apart refl refl
