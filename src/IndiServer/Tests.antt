-- ===== src/IndiServer/Tests.antt =====
-- Runs of the managers at fixed inputs.
use indi_engine.Base.{◌≤◌, true, none, some, List, [], ◌∷◌, ◌≡◌, if◌then◌else◌}
use indi_engine.IndiServer.Process.{Process, init, is_running}
use indi_engine.IndiServer.Single.{Call, starts, exits, restarts, adds, call_all, call_all-live}

abbrev calls : List Call
calls = starts ∷ restarts none ∷ exits ∷ adds "focus" ∷ starts ∷ []

call_all-live_example :
    let p = call_all calls (init ("ccd" ∷ []) none true) in
    (p.live ≤ 1) × (p.live ≡ (if is_running p then 1 else 0))
call_all-live_example = call_all-live calls ("ccd" ∷ []) none true

abbrev manager : Process
manager = init ("ccd" ∷ []) (some ("ccd" ∷ [])) true
