-- ===== src/UseCases/GetVideo.antt =====
-- crates/application/src/usecases/video/get_video_status.rs and get_video_by_token.rs
use Prim.Native.Char.{code}
use benri_stream.Prelude.{String, Option, eqb, trim_end}
use benri_stream.Platform.{Platform, ok_or}
use benri_stream.Video.{VideoId, VideoStatus, share_url, stream_url}
use benri_stream.Task.Scheduler.{RepositoryError}
use benri_stream.Db.Videos
use benri_stream.Effects.Ports.{Env, M, pure, lift, on_error, ◌>>=◌, show_repository_error}
use benri_stream.Effects.Database.{statement}

pub data Error : Type 0 where
  video_not_found : Error
  internal : String → Error

abbrev db_error : RepositoryError → Error
db_error e = internal (show_repository_error e)

pub record StatusOutput : Type 0 where
  pub status : VideoStatus
  pub share_url : Option String

pub record TokenOutput : Type 0 where
  pub title : String
  pub stream_url : Option String

-- `trim_end_matches('/')`
unfoldable pub trim_slashes : String → String
unfolding trim_end
trim_slashes s = trim_end (λ c. eqb (code c) b'/') s

module _ (env : Env) where
  unfoldable pub get_video_status : String → VideoId → M Error StatusOutput
  get_video_status base_url id = do
    found ← on_error db_error (statement env (λ _. Videos.find_by_id id))
    video ← lift (ok_or found video_not_found)
    pure (record { status = video.status; share_url = share_url base_url video })

  unfoldable pub get_video_by_token : Platform → String → String → M Error TokenOutput
  get_video_by_token p cdn_base_url share_token = do
    found ← on_error db_error (statement env (λ _. Videos.find_by_share_token share_token))
    video ← lift (ok_or found video_not_found)
    pure (record {
      title = video.title;
      stream_url = stream_url p (trim_slashes cdn_base_url) video;
    })
