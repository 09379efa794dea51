-- ===== src/Scripting/Tests.antt =====
-- Runs of the script registry and of the runner at fixed inputs.
use indi_engine.Base.{
  ℕ, ◌≢◌, String, Bool, true, false, Option, none, some, [], ◌∷◌, ◌++◌, ◌≡◌, refl, if◌then◌else◌,
  ◌==◌, ◌↔◌, arith, eq_iff,
}
use indi_engine.Scripting.Newlines.{has_cr, read_text, universal_newlines}
use indi_engine.Base.Dict.{Dict, lookup, has_key}
use indi_engine.Base.Names.{member}
use indi_engine.Base.Result.{ok, err, file_not_found, permission_error}
use indi_engine.Scripting.Registry.{
  Registry, is_name_char, matches_rest, is_valid_name, file_of, load, save, delete, load-save,
  delete-save,
}
use indi_engine.Scripting.Sandbox.{
  safe_importer, builtins, dangerous, extra_safe_builtins, script_builtins, make_restricted_globals,
}
use indi_engine.Scripting.Sandbox.Names.{as_builtin, or_else, script_builtins-names}
use indi_engine.Scripting.Runner.{
  Runner, BlobContext, Outcome, run, new_handle, cancel, on_done, register_blob_device,
  get_blob_context_for_device,
}
use indi_engine.Scripting.Runner.Lifecycle.{log_all, story, on_done-run, blob_context-owner}

abbrev registry : Registry
registry = record { builtin = ("slew.py", "builtin slew") ∷ []; user = [] }

abbrev size_of : String → ℕ
size_of s = 10

abbrev compiles : String → Bool
compiles s = true

saved : (save size_of compiles "slew" "my slew" registry).0 ≡ ok tt
unfolding save is_valid_name matches_rest is_name_char
saved = refl

other_file : file_of "slew" ≢ file_of "park"
other_file same = absurd (ground (arith, same, eq_iff (file_of "slew") (file_of "park")))

load-save_example :
    let r' = (save size_of compiles "slew" "my slew" registry).1 in
    ((loaded : String) × (load "slew" r' ≡ ok loaded)
      × (has_cr loaded ≡ false)
      × (loaded ≡ "my slew" ↔ has_cr "my slew" ≡ false))
    × (load "park" r' ≡ load "park" registry)
load-save_example = load-save size_of compiles "slew" "my slew" "park" registry saved other_file

-- A script with the newlines of Windows is loaded with other ones.
windows_newlines : read_text "a\r\nb\rc\n" ≡ "a\nb\nc\n"
unfolding universal_newlines
windows_newlines = refl

-- The pattern accepts a newline at the end of a name.
newline_name : is_valid_name "slew\n" ≡ true
unfolding is_valid_name matches_rest is_name_char
newline_name = refl

delete-save_example :
    let r' = (save size_of compiles "slew" "my slew" registry).1 in
    (has_key (file_of "slew") registry.builtin ≡ false
      → ((delete "slew" r').0 ≡ ok tt) × (load "slew" (delete "slew" r').1 ≡ err file_not_found))
    × (has_key (file_of "slew") registry.builtin ≡ true
        → delete "slew" r' ≡ (err permission_error, r'))
delete-save_example = delete-save size_of compiles "slew" "my slew" registry saved

abbrev runner : Runner ℕ
runner = record {
  registry = registry;
  runs = ("r1", new_handle "r1" "slew") ∷ [];
  blob_registry = ("Cam", record { run_id = "r1"; capture_params = some 5 }) ∷ [];
  submitted = ("r1", none) ∷ [];
  broadcasts = [];
}

started : (run compiles "r2" "slew" (some 1) runner).0 ≡ ok "r2"
unfolding run load is_valid_name matches_rest is_name_char lookup
started = refl

fresh : lookup "r2" runner.runs ≡ none
unfolding lookup
fresh = refl

on_done-run_example :
    let r' =
      on_done
        (Outcome.raised_paused (some 3))
        "r2"
        "slew"
        (log_all "r2" "slew" ("exposing" ∷ []) (run compiles "r2" "slew" (some 1) runner).1) in
    (cancel "r2" r' ≡ (false, r'))
    × (r'.broadcasts
        ≡ runner.broadcasts ++ story "r2" "slew" ("exposing" ∷ []) (Outcome.raised_paused (some 3)))
    × (lookup "r1" r'.runs ≡ lookup "r1" runner.runs)
on_done-run_example =
    on_done-run compiles "r2" "slew" "r1" (some 1) ("exposing" ∷ [])
      (Outcome.raised_paused (some 3)) runner fresh started

blob_context-owner_example :
    ((ctx : BlobContext ℕ)
      → get_blob_context_for_device "Cam" (on_done Outcome.returned "r1" "slew" runner) ≡ some ctx
      → ctx.run_id ≢ "r1")
    × (get_blob_context_for_device "Guide" (register_blob_device "Cam" "r1" (some 5) runner) ≡ (
        if "Cam" == "Guide"
        then some (record { run_id = "r1"; capture_params = some 5 })
        else get_blob_context_for_device "Guide" runner))
blob_context-owner_example =
    blob_context-owner Outcome.returned "r1" "slew" "Cam" "Guide" (some 5) runner

abbrev safe_builtins : Dict ℕ
safe_builtins = ("len", 1) ∷ ("open", 2) ∷ []

abbrev real : String → Option ℕ
real name = some 3

abbrev no_names : Dict ℕ
no_names = []

nothing : lookup "__builtins__" no_names ≡ none
unfolding lookup
nothing = refl

script_builtins-names_example :
    (lookup "getattr" (script_builtins safe_builtins real) ≡ (
      if "getattr" == "__import__"
      then some safe_importer
      else if member "getattr" dangerous
      then none
      else or_else
          (as_builtin (lookup "getattr" safe_builtins))
          (if member "getattr" extra_safe_builtins then as_builtin (real "getattr") else none)))
    × (lookup "__builtins__" (make_restricted_globals [] safe_builtins real no_names)
        ≡ some (builtins (script_builtins safe_builtins real)))
script_builtins-names_example =
    script_builtins-names "getattr" [] safe_builtins no_names real nothing
