-- ===== src/Server/Engine/Images.antt =====
-- `_handle_frame_control` of indi_engine/server/socket_server.py, over the store of frames. The image
-- of a "frame_data" message stands for its base64. It runs in a thread of its own, here as one step.
use indi_engine.Base.{ℕ, String, Option, none, some, if◌then◌else◌}
use indi_engine.Base.Dict.{Dict}
use indi_engine.Base.Result.{Result, ok, err}
use indi_engine.Frames
use indi_engine.Frames.{Meta}
use indi_engine.IndiServer.{Manager}
use indi_engine.Protocol.Runtime.{Runtime}
use indi_engine.Server.Engine.{
  Command, unavailable, missing_field, unknown_action, refused, Reply, World, Engine, says, system,
  of_device, reply_to,
}
use indi_engine.Server.Hub.{Packet}
use indi_engine.Transport.Bytes.{Bytes}

-- The reply, and the files
abbrev Outcome : Runtime → Type 0 → Type 0
Outcome py Params = Packet (Reply py Params) × Dict Bytes

module _ {py : Runtime} {Params : Type 0} where
  abbrev pub data_reply : String → Result (Bytes × Meta) → Packet (Reply py Params)
  data_reply frame_id (err e) = system (Reply.frame_error (refused e))
  data_reply frame_id (ok (image, meta)) =
      of_device meta.device (Reply.frame_data frame_id meta image)

  abbrev pub get_frame : World py Params → Option String → Dict Bytes → Outcome py Params
  get_frame w none files = (system (Reply.frame_error (missing_field "frame_id")), files)
  get_frame w (some frame_id) files =
      (data_reply frame_id (Frames.get w.codec frame_id files), files)

  abbrev deleted : String → Result (Unit {0}) × Dict Bytes → Outcome py Params
  deleted frame_id (err e, files) = (system (Reply.frame_error (refused e)), files)
  deleted frame_id (ok u, files) = (system (Reply.frame_delete_ack frame_id), files)

  abbrev delete_frame :
      World py Params → Option String → Option String → Dict Bytes → Outcome py Params
  delete_frame w none hash files = (system (Reply.frame_error (missing_field "frame_id")), files)
  delete_frame w (some frame_id) none files =
      (system (Reply.frame_error (missing_field "hash")), files)
  delete_frame w (some frame_id) (some hash) files =
      deleted frame_id (Frames.delete w.codec frame_id hash files)

  -- The `try` with its handlers
  unfoldable pub frame_action : World py Params → Command Params → Dict Bytes → Outcome py Params
  frame_action w cmd files =
      if says cmd.action "list"
      then (system (Reply.frame_list (Frames.list w.codec w.is_json w.newest_first files)), files)
      else if says cmd.action "get"
      then get_frame w cmd.frame_id files
      else if says cmd.action "delete"
      then delete_frame w cmd.frame_id cmd.hash files
      else (system (Reply.frame_error (unknown_action cmd.action)), files)

module _ {py : Runtime} {M : Manager} {Params : Type 0} where
  abbrev pub in_store :
      World py Params
      → Command Params
      → ℕ
      → Option (Dict Bytes)
      → Engine py M Params
      → Engine py M Params
  in_store w cmd conn none e = reply_to w conn (system (Reply.frame_error unavailable)) e
  in_store w cmd conn (some files) e =
      let (msg, files') = frame_action w cmd files in
      reply_to w conn msg (record e { frames = some files' })

  -- `_handle_frame_control`
  unfoldable pub handle_frame_control :
      World py Params → Command Params → ℕ → Engine py M Params → Engine py M Params
  handle_frame_control w cmd conn e = in_store w cmd conn e.frames e
