-- ===== src/UseCases/InitiateUpload.antt =====
-- crates/application/src/usecases/video/initiate_upload.rs
pub mod Created
use Prim.Native.String.{count}
use benri_stream.Prelude.{ℕ, String, none, [], ◌∷◌, if◌then◌else◌, ltb, concat, trim, is_blank}
use benri_stream.Platform.{Platform, Uuid, ok_or}
use benri_stream.Video.{
  Video, VideoId, VideoFormat, pending_upload, max_title_length, max_upload_size_bytes,
}
use benri_stream.Video.Format
use benri_stream.Db.Videos
use benri_stream.Effects.Ports.{
  Env, Turn, M, pure, fail, lift, on_error, ◌>>=◌, ◌>>◌, show_storage_error, show_repository_error,
}
use benri_stream.Effects.Database.{turn, statement}

pub record Input : Type 0 where
  pub title : String
  pub mime_type : String

pub record Output : Type 0 where
  pub id : VideoId
  pub upload_url : String

pub data Error : Type 0 where
  title_required title_too_long unsupported_format : Error
  internal : String → Error

abbrev pub upload_expiry_secs : ℕ
upload_expiry_secs = 1800

module _ (p : Platform) where
  unfoldable pub upload_key : Uuid → VideoFormat → String
  upload_key id format =
      concat ("uploads/" ∷ p.show_uuid id ∷ "/original" ∷ Format.extension format ∷ [])

  -- The row of a new video: its id and its time are the environment's.
  unfoldable pub new_video : Turn → String → VideoFormat → Video
  unfolding upload_key
  new_video t title format = record {
    id = t.uuid;
    share_token = none;
    title = title;
    format = format;
    status = pending_upload;
    upload_key = upload_key t.uuid format;
    created_at = t.now;
  }

  module _ (env : Env) where
    -- From the stored row on.
    unfoldable pub upload_url : Video → String → M Error Output
    upload_url video mime_type = do
      t ← turn env
      url ←
          on_error (λ e. internal (show_storage_error e))
            (lift (
              t.presigned_upload video.upload_key mime_type max_upload_size_bytes
                upload_expiry_secs))
      pure (record { id = video.id; upload_url = url })

    -- From the checked title and format on.
    unfoldable pub create_video : String → String → VideoFormat → M Error Output
    create_video title mime_type format = do
      t ← turn env
      let video = new_video t title format
      on_error (λ e. internal (show_repository_error e)) (statement env (λ _. Videos.insert video))
      upload_url video mime_type

    unfoldable pub execute : Input → M Error Output
    execute input =
        let title = trim input.title in
        if is_blank title
        then fail title_required
        else if ltb max_title_length (count title)
        then fail title_too_long
        else (do
          format ← lift (ok_or (Format.from_mime_type input.mime_type) unsupported_format)
          create_video title input.mime_type format)
