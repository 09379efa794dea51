-- ===== src/Scripting/Api/Claims.antt =====
-- Which run a device's BLOBs belong to after `enable_blobs`.
use indi_engine.Base.{
  String, Bool, true, false, ◌&&◌, Option, some, ◌≡◌, refl, if◌then◌else◌, ◌==◌, branches,
}
use indi_engine.Base.Dict.{lookup-insert}
use indi_engine.Base.Result.{Result, ok, err}
use indi_engine.Protocol.Client.{Client}
use indi_engine.Protocol.Client.Send.{set_blob_mode}
use indi_engine.Protocol.Runtime.{Runtime}
use indi_engine.Scripting.Api.{Api, enable_blobs, register_blob, then_register, with_client}
use indi_engine.Scripting.Runner.{register_blob_device, get_blob_context_for_device}

abbrev pub is_ok {ℓ} : {A : Type ℓ} → Result A → Bool
is_ok (err e) = false
is_ok (ok a) = true

module _ {py : Runtime} {Params : Type 0} where
  registered :
      (device other : String) (capture_params : Option Params) (a : Api py Params)
      → (a.run_id == "") ≡ false
      → get_blob_context_for_device other (register_blob device capture_params a).runner ≡ (
          if device == other
          then some (record { run_id = a.run_id; capture_params = capture_params })
          else get_blob_context_for_device other a.runner)
  unfolding register_blob_device get_blob_context_for_device
  registered device other capture_params a filled = simp (filled) (
      lookup-insert device other (record { run_id = a.run_id; capture_params = capture_params })
        a.runner.blob_registry)

  after_mode :
      (device other : String) (capture_params : Option Params) (r : Result (Unit {0}) × Client py)
      (a : Api py Params)
      → (a.run_id == "") ≡ false
      → let o = then_register device capture_params (with_client r a) in
        get_blob_context_for_device other o.1.runner ≡ (
          if is_ok o.0 && device == other
          then some (record { run_id = a.run_id; capture_params = capture_params })
          else get_blob_context_for_device other a.runner)
  after_mode device other capture_params (err e, c) a filled = refl
  after_mode device other capture_params (ok u, c) a filled =
      registered device other capture_params (record a { client = c }) filled

  -- In an API with a run, `enable_blobs` gives the device's BLOBs to the run, with the parameters of the
  -- capture, if it does not raise; if it raises, they belong to whom they did before, and those of other
  -- devices do in any case.
  pub enable_blobs-owner :
      (takes : Bool) (device other mode : String) (capture_params : Option Params)
      (a : Api py Params)
      → (a.run_id == "") ≡ false
      → let o = enable_blobs takes device mode capture_params a in
        get_blob_context_for_device other o.1.runner ≡ (
          if is_ok o.0 && device == other
          then some (record { run_id = a.run_id; capture_params = capture_params })
          else get_blob_context_for_device other a.runner)
  unfolding enable_blobs
  enable_blobs-owner takes device other mode capture_params a filled =
      branches
        (λ (o : Result (Unit {0}) × Api py Params). get_blob_context_for_device other o.1.runner ≡ (
          if is_ok o.0 && device == other
          then some (record { run_id = a.run_id; capture_params = capture_params })
          else get_blob_context_for_device other a.runner))
        a.cancel _ _ refl
        (after_mode device other capture_params (set_blob_mode takes mode device "" a.client) a
          filled)
