-- ===== src/UseCases/DeleteVideo.antt =====
-- crates/application/src/usecases/video/delete_video.rs
pub mod Cleared
use benri_stream.Prelude.{String}
use benri_stream.Platform.{Platform, ok_or}
use benri_stream.Video.{VideoId, storage_prefix}
use benri_stream.Task.Scheduler.{RepositoryError}
use benri_stream.Db.Videos
use benri_stream.Effects.Ports.{
  Env, M, lift, on_error, ◌>>=◌, ◌>>◌, StorageError, deleted_prefix, deleted_object,
  show_storage_error, show_repository_error,
}
use benri_stream.Effects.Database.{statement, storage_call}

pub data Error : Type 0 where
  video_not_found : Error
  internal : String → Error

abbrev pub db_error : RepositoryError → Error
db_error e = internal (show_repository_error e)

abbrev pub storage_error : StorageError → Error
storage_error e = internal (show_storage_error e)

module _ (p : Platform) (env : Env) where
  unfoldable pub execute : VideoId → M Error (Unit {0})
  execute video_id = do
    found ← on_error db_error (statement env (λ _. Videos.find_by_id video_id))
    video ← lift (ok_or found video_not_found)
    on_error storage_error (storage_call env (deleted_prefix (storage_prefix p video)))
    on_error storage_error (storage_call env (deleted_object video.upload_key))
    on_error db_error (statement env (λ _. Videos.delete video.id))
