-- ===== src/UseCases/CompleteUpload.antt =====
-- crates/application/src/usecases/video/complete_upload.rs
pub mod Atomic
pub mod Accepted
pub mod Kept
pub mod Refused
use benri_stream.Prelude.{
  ℕ, ◌-◌, String, Bool, true, false, not, List, Option, none, some, if◌then◌else◌, ltb_ℤ,
}
use benri_stream.Platform.{Platform, Result, ok, err, ok_or}
use benri_stream.Video.{
  Video, VideoId, VideoStatus, pending_upload, uploaded, status_eq, max_upload_size_bytes,
}
use benri_stream.Video.Format
use benri_stream.Task.Metadata
use benri_stream.Task.Scheduler.{RepositoryError}
use benri_stream.Db.Videos
use benri_stream.Effects.Ports.{
  Env, M, pure, fail, lift, on_error, attempt, ◌>>=◌, ◌>>◌, StorageError, ObjectMetadata,
  show_storage_error, show_repository_error,
}
use benri_stream.Effects.Database.{turn, statement, tx_statement, run}
use benri_stream.UseCases.Scheduling.{schedule_in_tx, schedule_standalone}

pub data Error : Type 0 where
  video_not_found already_completed file_not_found_in_storage : Error
  file_too_large invalid_file_signature : Error
  internal : String → Error

pub record Output : Type 0 where
  pub id : VideoId
  pub status : VideoStatus

abbrev pub file_signature_read_bytes : ℕ
file_signature_read_bytes = 16

unfoldable pub storage_err_to_use_case_err : StorageError → Error
storage_err_to_use_case_err (StorageError.not_found m) = file_not_found_in_storage
storage_err_to_use_case_err (StorageError.internal m) =
    internal (show_storage_error (StorageError.internal m))

-- `map_err(|e| Error::Internal(e.to_string()))` for a repository's error.
abbrev pub db_error : RepositoryError → Error
db_error e = internal (show_repository_error e)

module _ (p : Platform) (env : Env) (trace : Option String) where
  abbrev pub upload_transaction : VideoId → M RepositoryError Bool
  upload_transaction id = do
    moved ← tx_statement env (λ _. Videos.update_status_if id pending_upload uploaded)
    if not moved
        then pure false
        else do schedule_in_tx env trace (Metadata.process_video p id) none; pure true

  unfoldable pub transition_to_uploaded : VideoId → M Error Bool
  transition_to_uploaded id = on_error db_error (run env (upload_transaction id))

  -- A failure is logged and otherwise ignored.
  unfoldable pub schedule_delete_after_rejection : VideoId → M Error (Unit {0})
  schedule_delete_after_rejection id = do
    attempt (schedule_standalone env trace (Metadata.delete_video p id) none)
    pure tt

  -- From the read of the uploaded file's first bytes on.
  unfoldable pub after_signature : Video → List ℕ → M Error Output
  after_signature video header_bytes =
      if not (Format.validate_signature video.format header_bytes)
      then (schedule_delete_after_rejection video.id >> fail invalid_file_signature)
      else (do
        transitioned ← transition_to_uploaded video.id
        if not transitioned
            then fail already_completed
            else pure (record { id = video.id; status = uploaded }))

  unfoldable pub check_signature : Video → M Error Output
  check_signature video = do
    read ← turn env
    header_bytes ←
        on_error storage_err_to_use_case_err
          (lift (read.read_range video.upload_key 0 (file_signature_read_bytes - 1)))
    after_signature video header_bytes

  -- From the known size of the uploaded file on.
  unfoldable pub after_size : Video → ObjectMetadata → M Error Output
  after_size video object_meta =
      if ltb_ℤ max_upload_size_bytes object_meta.size_bytes
      then (schedule_delete_after_rejection video.id >> fail file_too_large)
      else check_signature video

  -- From the check of the uploaded file's size on.
  unfoldable pub check_upload : Video → M Error Output
  check_upload video = do
    head ← turn env
    meta ← on_error storage_err_to_use_case_err (lift (head.head_object video.upload_key))
    object_meta ← lift (ok_or meta file_not_found_in_storage)
    after_size video object_meta

  unfoldable pub execute : VideoId → M Error Output
  execute input_id = do
    found ← on_error db_error (statement env (λ _. Videos.find_by_id input_id))
    video ← lift (ok_or found video_not_found)
    if not (status_eq video.status pending_upload)
        then fail already_completed
        else check_upload video
