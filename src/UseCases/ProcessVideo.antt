-- ===== src/UseCases/ProcessVideo.antt =====
-- crates/application/src/usecases/video/process_video.rs. The transcoder uploads to the storage
-- while the early publisher waits for its signal and writes the share token. The publisher is
-- awaited before the result of the transcoder is looked at, so it is its only statement meanwhile.
pub mod Failed
use benri_stream.Prelude.{String, Bool, true, false, not, Option, none, if◌then◌else◌}
use benri_stream.Platform.{Platform, Result, ok, err, ok_or}
use benri_stream.Video.{Video, VideoId, uploaded, processing, failed, storage_prefix}
use benri_stream.Task.Metadata
use benri_stream.Task.Scheduler.{RepositoryError}
use benri_stream.Db.Videos
use benri_stream.Effects.Ports.{
  Env, M, pure, lift, on_error, attempt, ◌>>=◌, ◌>>◌, deleted_object, ProbeResult, TranscoderError,
  show_repository_error,
}
use benri_stream.Effects.Database.{turn, statement, tx_statement, run, storage_call}
use benri_stream.UseCases.Scheduling.{schedule_in_tx}

pub data Error : Type 0 where
  video_not_found : Error
  internal : String → Error

abbrev pub db_error : RepositoryError → Error
db_error e = internal (show_repository_error e)

module _ (p : Platform) (env : Env) (trace : Option String) where
  unfoldable pub load_video : VideoId → M Error Video
  load_video id = do
    found ← on_error db_error (statement env (λ _. Videos.find_by_id id))
    lift (ok_or found video_not_found)

  unfoldable pub claim_for_processing : VideoId → M Error Bool
  claim_for_processing id =
      on_error db_error (statement env (λ _. Videos.update_status_if id uploaded processing))

  -- The answer of the update, like its error, is only logged.
  unfoldable pub publish_share_token : VideoId → String → M Error (Unit {0})
  publish_share_token id share_token = do
    attempt (statement env (λ _. Videos.set_share_token id share_token))
    pure tt

  -- The task that `spawn_early_publisher` starts, when the channel of `make_notifier_pair` answers.
  unfoldable pub early_publisher : Bool → VideoId → String → M Error (Unit {0})
  early_publisher first_segment id share_token =
      if not first_segment then pure tt else publish_share_token id share_token

  abbrev pub failure_transaction : VideoId → M RepositoryError (Unit {0})
  failure_transaction id = do
    tx_statement env (λ _. Videos.update_status_if id processing failed)
    schedule_in_tx env trace (Metadata.delete_video p id) none
    pure tt

  unfoldable pub fail_and_schedule_delete : VideoId → M RepositoryError (Unit {0})
  fail_and_schedule_delete id = run env (failure_transaction id)

  -- `ProcessVideoUseCase::fail`: a failure to record the failure is logged.
  unfoldable pub fail_video : VideoId → M Error (Unit {0})
  fail_video id = do attempt (fail_and_schedule_delete id); pure tt

  unfoldable pub cleanup_original_inline : Video → M Error (Unit {0})
  cleanup_original_inline video = do
    attempt (storage_call env (deleted_object video.upload_key))
    pure tt

  abbrev pub finalize_by : Video → Result RepositoryError Bool → M Error (Unit {0})
  finalize_by video (ok true) = cleanup_original_inline video
  finalize_by video (ok false) = pure tt
  finalize_by video (err e) = fail_video video.id

  unfoldable pub finalize : Video → String → M Error (Unit {0})
  finalize video share_token = do
    marked ← attempt (statement env (λ _. Videos.mark_processed video.id share_token))
    finalize_by video marked

  abbrev pub end_by : Video → String → Result TranscoderError (Unit {0}) → M Error (Unit {0})
  end_by video share_token (err e) = fail_video video.id
  end_by video share_token (ok done) = finalize video share_token

  -- From the probe's success on.
  unfoldable pub transcode : Video → ProbeResult → M Error (Unit {0})
  transcode video probe = do
    t ← turn env
    early_publisher t.first_segment video.id t.share_token
    end_by video t.share_token (t.transcoded video.upload_key (storage_prefix p video) probe)

  abbrev pub probed : Video → Result TranscoderError ProbeResult → M Error (Unit {0})
  probed video (err e) = fail_video video.id
  probed video (ok probe) = transcode video probe

  unfoldable pub execute : VideoId → M Error (Unit {0})
  execute video_id = do
    video ← load_video video_id
    claimed ← claim_for_processing video.id
    if not claimed then pure tt else do t ← turn env; probed video (t.probe video.upload_key)
