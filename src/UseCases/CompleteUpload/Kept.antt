-- ===== src/UseCases/CompleteUpload/Kept.antt =====
-- What `execute` of crates/application/src/usecases/video/complete_upload.rs keeps, if its statements
-- keep it.
use benri_stream.Prelude.{ℕ, ◌-◌, String, Option, List, not, ltb_ℤ}
use benri_stream.Platform.{Platform, ok_or}
use benri_stream.Video.{Video, VideoId, pending_upload, status_eq, max_upload_size_bytes}
use benri_stream.Video.Format
use benri_stream.Db.Tables.{Db}
use benri_stream.Db.Videos
use benri_stream.Effects.Ports.{Env, ObjectMetadata}
use benri_stream.Effects.Database.{statement}
use benri_stream.Effects.Keeps.{
  Keeps, Keeps-pure, Keeps-fail, Keeps-lift, Keeps-if, Keeps-on_error, Keeps-bind, Keeps-then,
  Keeps-turn,
}
use benri_stream.UseCases.CompleteUpload.{
  video_not_found, already_completed, file_not_found_in_storage, file_too_large,
  invalid_file_signature, storage_err_to_use_case_err, file_signature_read_bytes, execute,
  check_upload, after_size, check_signature, after_signature, transition_to_uploaded,
  schedule_delete_after_rejection,
}

module _ (p : Platform) (env : Env) (trace : Option String) {P : Db → Type 0}
    (find : (id : VideoId) → Keeps P (statement env (λ _. Videos.find_by_id id)))
    (transition : (id : VideoId) → Keeps P (transition_to_uploaded p env trace id))
    (rejected : (id : VideoId) → Keeps P (schedule_delete_after_rejection p env trace id)) where
  checked-Keeps :
      (video : Video) (header_bytes : List ℕ)
      → Keeps P (after_signature p env trace video header_bytes)
  unfolding after_signature
  checked-Keeps video header_bytes =
      Keeps-if (not (Format.validate_signature video.format header_bytes)) _ _
        (Keeps-then _ _ (rejected video.id) (Keeps-fail invalid_file_signature))
        (Keeps-bind _ _ (transition video.id)
          (λ moved. Keeps-if (not moved) _ _ (Keeps-fail already_completed) (Keeps-pure _)))

  check_signature-Keeps : (video : Video) → Keeps P (check_signature p env trace video)
  unfolding check_signature
  check_signature-Keeps video = Keeps-bind _ _ (Keeps-turn env) (λ read.
      Keeps-bind _ _
        (Keeps-on_error storage_err_to_use_case_err _
          (Keeps-lift (read.read_range video.upload_key 0 (file_signature_read_bytes - 1))))
        (λ header_bytes. checked-Keeps video header_bytes))

  sized-Keeps :
      (video : Video) (object_meta : ObjectMetadata)
      → Keeps P (after_size p env trace video object_meta)
  unfolding after_size
  sized-Keeps video object_meta =
      Keeps-if (ltb_ℤ max_upload_size_bytes object_meta.size_bytes) _ _
        (Keeps-then _ _ (rejected video.id) (Keeps-fail file_too_large))
        (check_signature-Keeps video)

  check_upload-Keeps : (video : Video) → Keeps P (check_upload p env trace video)
  unfolding check_upload
  check_upload-Keeps video = Keeps-bind _ _ (Keeps-turn env) (λ head.
      Keeps-bind _ _
        (Keeps-on_error storage_err_to_use_case_err _
          (Keeps-lift (head.head_object video.upload_key)))
        (λ meta.
          Keeps-bind _ _ (Keeps-lift (ok_or meta file_not_found_in_storage)) (sized-Keeps video)))

  pub execute-Keeps : (id : VideoId) → Keeps P (execute p env trace id)
  unfolding execute
  execute-Keeps id = Keeps-bind _ _ (Keeps-on_error _ _ (find id)) (λ found.
      Keeps-bind _ _ (Keeps-lift (ok_or found video_not_found)) (λ video.
        Keeps-if (not (status_eq video.status pending_upload)) _ _ (Keeps-fail already_completed)
          (check_upload-Keeps video)))
