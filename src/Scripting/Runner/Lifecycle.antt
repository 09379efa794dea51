-- ===== src/Scripting/Runner/Lifecycle.antt =====
-- A run from its start to its end.
use indi_engine.Base.{
  String, Bool, true, false, Option, none, some, [], ◌∷◌, ◌++◌, ◌≡◌, ◌≢◌, refl, sym, ◌∙◌, arith,
  if◌then◌else◌, ◌==◌, eq_iff, inl, inr, Option-cases, List, map,
}
use mathlib.Core.List.{append-nil, append_assoc}
use indi_engine.Base.Dict.{Dict, lookup, insert, remove, has_key, lookup-insert, lookup-remove}
use indi_engine.Base.Result.{Result, Raised, ok, err, err-ne-ok}
use indi_engine.Scripting.Registry
use indi_engine.Scripting.Runner.{
  Runner, RunHandle, BlobContext, Outcome, RunStatus, log, new_handle, run, start, start_loaded,
  cancel, set_cancel, on_done, drop_stale, final_status, register_blob_device,
  get_blob_context_for_device,
}

abbrev pub cancelled_run : Option RunHandle → Option RunHandle
cancelled_run none = none
cancelled_run (some h) = some (set_cancel h)

module _ {Params : Type 0} where
  -- `cancel` answers True exactly for a run that is in the table, sets its event and changes no other
  -- run.
  pub cancel-found :
      (run_id other : String) (r : Runner Params)
      → ((cancel run_id r).0 ≡ has_key run_id r.runs)
        × (lookup other (cancel run_id r).1.runs ≡ (
            if run_id == other then cancelled_run (lookup other r.runs) else lookup other r.runs))
  unfolding cancel
  cancel-found run_id other r = elim (Option-cases (lookup run_id r.runs)) [
    | inl absent ↦ rw absent (refl, ground (arith, absent, eq_iff run_id other))
    | inr (h, at) ↦ rw at (
      refl,
      ground (arith, at, eq_iff run_id other, lookup-insert run_id other (set_cancel h) r.runs),
    )
  ]

  drop_stale-lookup :
      (run_id device : String) (ctx : BlobContext Params) (d : Dict (BlobContext Params))
      → lookup device (drop_stale run_id d) ≡ some ctx
      → (ctx.run_id == run_id) ≡ false
  unfolding drop_stale lookup
  drop_stale-lookup run_id device ctx [] h = absurd (ground (arith, h))
  drop_stale-lookup run_id device ctx ((k, c) ∷ d) h =
      ground (arith, h, drop_stale-lookup run_id device ctx d)

  -- When a run has ended, no device's BLOBs belong to it; and a device that a run claims belongs to that
  -- run, and the other devices to whom they did before.
  pub blob_context-owner :
      (outcome : Outcome Params) (run_id name device other : String) (capture : Option Params)
      (r : Runner Params)
      → ((ctx : BlobContext Params)
          → get_blob_context_for_device device (on_done outcome run_id name r) ≡ some ctx
          → ctx.run_id ≢ run_id)
        × (get_blob_context_for_device other (register_blob_device device run_id capture r) ≡ (
            if device == other
            then some (record { run_id = run_id; capture_params = capture })
            else get_blob_context_for_device other r))
  unfolding get_blob_context_for_device on_done register_blob_device
  blob_context-owner outcome run_id name device other capture r = (
    λ ctx held same. ground (
      arith,
      same,
      eq_iff ctx.run_id run_id,
      drop_stale-lookup run_id device ctx r.blob_registry held,
    ),
    lookup-insert device other _ r.blob_registry,
  )

  -- A `run` that returns an id has entered the run, so that `cancel` finds it; a `run` that raises
  -- has changed nothing.
  pub run-entered :
      (compiles : String → Bool) (run_id name : String) (params : Option Params) (r : Runner Params)
      → ((e : Raised)
          → (run compiles run_id name params r).0 ≡ err e
          → (run compiles run_id name params r).1 ≡ r)
        × ((run compiles run_id name params r).0 ≡ ok run_id
            → ((run compiles run_id name params r).1.runs
                ≡ insert run_id (new_handle run_id name) r.runs)
              × ((cancel run_id (run compiles run_id name params r).1).0 ≡ true))
  unfolding run
  run-entered compiles run_id name params r = loaded (Registry.load name r.registry)
    where
      started :
          (b : Bool)
          → ((e : Raised)
              → (start run_id name params b r).0 ≡ err e
              → (start run_id name params b r).1 ≡ r)
            × ((start run_id name params b r).0 ≡ ok run_id
                → ((start run_id name params b r).1.runs
                    ≡ insert run_id (new_handle run_id name) r.runs)
                  × ((cancel run_id (start run_id name params b r).1).0 ≡ true))
      started false = (λ e h. refl, λ h. absurd (err-ne-ok h))
      started true = (
        λ e h. absurd (err-ne-ok (sym h)),
        λ h. (
          refl,
          (cancel-found run_id run_id (start run_id name params true r).1).0
              ∙ ground (
                arith,
                eq_iff run_id run_id,
                lookup-insert run_id run_id (new_handle run_id name) r.runs,
              ),
        ),
      )

      loaded :
          (o : Result String)
          → ((e : Raised)
              → (start_loaded compiles run_id name params o r).0 ≡ err e
              → (start_loaded compiles run_id name params o r).1 ≡ r)
            × ((start_loaded compiles run_id name params o r).0 ≡ ok run_id
                → ((start_loaded compiles run_id name params o r).1.runs
                    ≡ insert run_id (new_handle run_id name) r.runs)
                  × ((cancel run_id (start_loaded compiles run_id name params o r).1).0 ≡ true))
      loaded (err e) = (λ e' h. refl, λ h. absurd (err-ne-ok h))
      loaded (ok source) = started (compiles source)

  -- What is told of a run at last, by how its script ended
  abbrev pub last_status : Outcome Params → RunStatus Params
  last_status Outcome.returned = RunStatus.finished
  last_status Outcome.raised_cancelled = RunStatus.cancelled
  last_status (Outcome.raised_paused resume) = RunStatus.paused resume
  last_status (Outcome.raised message) = RunStatus.failed message

  final_status-last_status : (outcome : Outcome Params) → final_status outcome ≡ last_status outcome
  final_status-last_status Outcome.returned = refl
  final_status-last_status Outcome.raised_cancelled = refl
  final_status-last_status (Outcome.raised_paused resume) = refl
  final_status-last_status (Outcome.raised message) = refl

  -- The calls of `log` of a script
  abbrev pub log_all : String → String → List String → Runner Params → Runner Params
  log_all run_id name [] r = r
  log_all run_id name (text ∷ texts) r = log_all run_id name texts (log run_id name text r)

  -- What is told of a run, from its start to its end
  abbrev pub story :
      String → String → List String → Outcome Params → List (String × String × RunStatus Params)
  story run_id name texts outcome =
      (run_id, name, RunStatus.running "Script started")
        ∷ map (λ text. (run_id, name, RunStatus.running text)) texts
      ++ (run_id, name, last_status outcome) ∷ []

  log_all-runs :
      (run_id name : String) (texts : List String) (r : Runner Params)
      → ((log_all run_id name texts r).runs ≡ r.runs)
        × ((log_all run_id name texts r).broadcasts
            ≡ r.broadcasts ++ map (λ text. (run_id, name, RunStatus.running text)) texts)
  unfolding log
  log_all-runs run_id name [] r = (refl, sym (append-nil r.broadcasts))
  log_all-runs run_id name (text ∷ texts) r =
      let (runs, told) = log_all-runs run_id name texts (log run_id name text r) in
      (runs, told ∙ append_assoc r.broadcasts _ _)

  run_began :
      (compiles : String → Bool) (run_id name : String) (params : Option Params) (r : Runner Params)
      → (run compiles run_id name params r).0 ≡ ok run_id
      → ((run compiles run_id name params r).1.runs ≡ insert run_id (new_handle run_id name) r.runs)
        × ((run compiles run_id name params r).1.broadcasts
            ≡ r.broadcasts ++ (run_id, name, RunStatus.running "Script started") ∷ [])
  unfolding run
  run_began compiles run_id name params r = loaded (Registry.load name r.registry)
    where
      started :
          (b : Bool)
          → (start run_id name params b r).0 ≡ ok run_id
          → ((start run_id name params b r).1.runs ≡ insert run_id (new_handle run_id name) r.runs)
            × ((start run_id name params b r).1.broadcasts
                ≡ r.broadcasts ++ (run_id, name, RunStatus.running "Script started") ∷ [])
      started false h = absurd (err-ne-ok h)
      started true h = (refl, refl)

      loaded :
          (o : Result String)
          → (start_loaded compiles run_id name params o r).0 ≡ ok run_id
          → ((start_loaded compiles run_id name params o r).1.runs
              ≡ insert run_id (new_handle run_id name) r.runs)
            × ((start_loaded compiles run_id name params o r).1.broadcasts
                ≡ r.broadcasts ++ (run_id, name, RunStatus.running "Script started") ∷ [])
      loaded (err e) h = absurd (err-ne-ok h)
      loaded (ok source) h = started (compiles source) h

  -- A run under a new id that `run` starts, whose script then logs some texts and ends, however it ends: the
  -- table of runs is as before, so that `cancel` answers False for it, and what was broadcast is its start,
  -- the texts in their order, and at last "finished", "cancelled", "paused" with the parameters to resume
  -- with, or "error" with the message, as the script returned or raised.
  pub on_done-run :
      (compiles : String → Bool) (run_id name other : String) (params : Option Params)
      (texts : List String) (outcome : Outcome Params) (r : Runner Params)
      → lookup run_id r.runs ≡ none
      → (run compiles run_id name params r).0 ≡ ok run_id
      → let r' =
          on_done outcome run_id name
            (log_all run_id name texts (run compiles run_id name params r).1) in
        (cancel run_id r' ≡ (false, r'))
        × (r'.broadcasts ≡ r.broadcasts ++ story run_id name texts outcome)
        × (lookup other r'.runs ≡ lookup other r.runs)
  unfolding on_done cancel
  on_done-run compiles run_id name other params texts outcome r fresh began =
      let (runs, told) = run_began compiles run_id name params r began in
      let (kept, logged) = log_all-runs run_id name texts (run compiles run_id name params r).1 in
      let same : (log_all run_id name texts (run compiles run_id name params r).1).runs
          ≡ insert run_id (new_handle run_id name) r.runs =
        kept ∙ runs in
      let left : Dict RunHandle = insert run_id (new_handle run_id name) r.runs in
      let gone : lookup run_id (remove run_id left) ≡ none =
        ground (arith, lookup-remove run_id run_id left, eq_iff run_id run_id) in
      (
        rw (same, gone) refl,
        rw (logged, told, final_status-last_status outcome)
            (append_assoc (r.broadcasts ++ (run_id, name, RunStatus.running "Script started") ∷ [])
                _ _
              ∙ append_assoc r.broadcasts _ _),
        rw same (
            ground (
              arith,
              fresh,
              lookup-remove run_id other left,
              lookup-insert run_id other (new_handle run_id name) r.runs,
              eq_iff run_id other,
            )),
      )
