-- ===== src/System/Reaching/Requests.antt =====
-- The changes of initiate_upload.rs, complete_upload.rs and delete_video.rs of
-- crates/application/src/usecases/video as steps.
use benri_stream.Prelude.{String, Option, none, refl, true, false, not, ltb, trim, is_blank}
use Prim.Native.String.{count}
use benri_stream.Platform.{Platform}
use benri_stream.Video.{
  Video, VideoId, pending_upload, uploaded, max_title_length, max_upload_size_bytes,
}
use benri_stream.Task.Metadata
use benri_stream.Db.Tables.{Db}
use benri_stream.Db.Videos
use benri_stream.Db.Videos.Lifecycle.{Moves}
use benri_stream.Effects.Ports.{Env, World, show_repository_error, show_storage_error}
use benri_stream.Effects.Keeps.{
  Keeps-pure, Keeps-fail, Keeps-lift, Keeps-if, Keeps-on_error, Keeps-attempt, Keeps-bind,
  Keeps-then, Keeps-turn, Keeps-storage_call, Keeps-run,
}
use benri_stream.UseCases.InitiateUpload
use benri_stream.UseCases.CompleteUpload
use benri_stream.UseCases.CompleteUpload.Kept.{execute-Keeps}
use benri_stream.UseCases.DeleteVideo
use benri_stream.System.{Step, Reach, start}
use benri_stream.System.Reaching.{
  AreSteps, Stays, between, Stays-statement, Stays-tx_statement, find_by_id-Stays,
  schedule_in_tx-Stays, schedule_standalone-Stays,
}

module _ (start_db : Db) (env : Env) (others : AreSteps env) (p : Platform) where
  upload_url-Stays :
      (video : Video) (mime_type : String)
      → Stays start_db env others (InitiateUpload.upload_url p env video mime_type)
  unfolding InitiateUpload.upload_url
  upload_url-Stays video mime_type = Keeps-bind _ _ (Keeps-turn env) (λ t.
      Keeps-bind _ _
        (Keeps-on_error (λ e. InitiateUpload.internal (show_storage_error e)) _
          (Keeps-lift (
            t.presigned_upload video.upload_key mime_type max_upload_size_bytes
              InitiateUpload.upload_expiry_secs)))
        (λ url. Keeps-pure (record { id = video.id; upload_url = url })))

  pub initiate_upload-Stays :
      (input : InitiateUpload.Input)
      → Stays start_db env others (InitiateUpload.execute p env input)
  unfolding InitiateUpload.execute InitiateUpload.create_video InitiateUpload.new_video
  initiate_upload-Stays input = Keeps-if (is_blank (trim input.title)) _ _ (Keeps-fail _) (
      Keeps-if (ltb max_title_length (count (trim input.title))) _ _ (Keeps-fail _) (
        Keeps-bind _ _ (Keeps-lift _) (λ format. Keeps-bind _ _ (Keeps-turn env) (λ t.
          Keeps-then _ _
            (Keeps-on_error (λ e. InitiateUpload.internal (show_repository_error e)) _
              (Stays-statement start_db env others
                (λ _. Videos.insert (InitiateUpload.new_video p t (trim input.title) format))
                (λ _ db. Step.initiate _ refl refl)))
            (upload_url-Stays (InitiateUpload.new_video p t (trim input.title) format)
              input.mime_type)))))

  pub delete_video-Stays : (id : VideoId) → Stays start_db env others (DeleteVideo.execute p env id)
  unfolding DeleteVideo.execute
  delete_video-Stays id =
      Keeps-bind _ _ (Keeps-on_error _ _ (find_by_id-Stays start_db env others id)) (λ found.
        Keeps-bind _ _ (Keeps-lift _) (λ video.
          Keeps-then _ _ (Keeps-on_error _ _ (Keeps-storage_call env _)) (
            Keeps-then _ _ (Keeps-on_error _ _ (Keeps-storage_call env _)) (
              Keeps-on_error _ _ (
                Stays-statement start_db env others (λ _. Videos.delete video.id)
                  (λ _ db. Step.remove video.id))))))

  module _ (trace : Option String) where
    transition_to_uploaded-Stays :
        (id : VideoId)
        → Stays start_db env others (CompleteUpload.transition_to_uploaded p env trace id)
    unfolding CompleteUpload.transition_to_uploaded
    transition_to_uploaded-Stays id = Keeps-on_error _ _ (
        Keeps-run env _ (between start_db env others) (
          Keeps-bind _ _
            (Stays-tx_statement start_db env others
              (λ _. Videos.update_status_if id pending_upload uploaded)
              (λ _ db. Step.change_status id Moves.complete))
            (λ moved. Keeps-if (not moved) _ _ (Keeps-pure false) (
              Keeps-then _ _
                (schedule_in_tx-Stays start_db env others trace (Metadata.process_video p id) none)
                (Keeps-pure true)))))

    rejected-Stays :
        (id : VideoId)
        → Stays start_db env others (CompleteUpload.schedule_delete_after_rejection p env trace id)
    unfolding CompleteUpload.schedule_delete_after_rejection
    rejected-Stays id =
        Keeps-then _ _
          (Keeps-attempt _
            (schedule_standalone-Stays start_db env others trace (Metadata.delete_video p id) none))
          (Keeps-pure tt)

    pub complete_upload-Stays :
        (id : VideoId) → Stays start_db env others (CompleteUpload.execute p env trace id)
    complete_upload-Stays =
        execute-Keeps p env trace (find_by_id-Stays start_db env others)
          transition_to_uploaded-Stays rejected-Stays

-- In the api, whatever a call of initiate_upload or of complete_upload answers, the tables that it
-- leaves are reached by steps of the system from those that it found, if what the other processes do
-- meanwhile is made of steps too.
pub requests-Reach :
    (p : Platform) (env : Env)
    → AreSteps env
    → (trace : Option String) (w : World)
    → ((input : InitiateUpload.Input) → Reach w.db (InitiateUpload.execute p env input w).1.db)
      × ((id : VideoId) → Reach w.db (CompleteUpload.execute p env trace id w).1.db)
requests-Reach p env others trace w = (
  λ input. (initiate_upload-Stays w.db env others p input).at w start,
  λ id. (complete_upload-Stays w.db env others p trace id).at w start,
)
