-- ===== src/UseCases/CleanupStaleVideos.antt =====
-- crates/application/src/usecases/video/cleanup_stale_videos.rs
pub mod Deletions
use benri_stream.Prelude.{
  ℕ, ◌*◌, ◌%◌, ◌^◌, String, Option, none, List, [], ◌∷◌, ◌++◌, if◌then◌else◌, is_empty, keep,
  length, map, ◌||◌, ◌-ℤ◌, pos,
}
use benri_stream.Platform.{Platform}
use benri_stream.Video.{Video, VideoId, DateTime, uploaded, processing, pending_upload, status_eq}
use benri_stream.Task.Types.{Task, from_secs}
use benri_stream.Task.Metadata
use benri_stream.Task.Scheduler.{RepositoryError, build_pending_task}
use benri_stream.Db.Videos
use benri_stream.Db.Tasks
use benri_stream.Effects.Ports.{Env, M, pure, lift, on_error, ◌>>=◌, ◌>>◌, show_repository_error}
use benri_stream.Effects.Database.{turn, statement}

pub record CleanupStats : Type 0 where
  pub pending_scheduled : ℕ
  pub stuck_scheduled : ℕ
  pub failed_scheduled : ℕ

pub data Error : Type 0 where
  internal : String → Error

abbrev pub db_error : RepositoryError → Error
db_error e = internal (show_repository_error e)

unfoldable pub collect_stuck_ids : List Video → List VideoId
collect_stuck_ids videos =
    map (λ v. v.id)
      (keep (λ v. status_eq v.status uploaded || status_eq v.status processing) videos)

-- `as u32`
abbrev as_u32 : ℕ → ℕ
as_u32 n = n % 2 ^ 32

module _ (p : Platform) (env : Env) (trace : Option String) where
  -- Each task has its own id and time.
  unfoldable pub build_delete_tasks : List Video → M RepositoryError (List Task)
  build_delete_tasks [] = pure []
  build_delete_tasks (v ∷ vs) = do
    t ← turn env
    task ← lift (build_pending_task t.now t.uuid trace (Metadata.delete_video p v.id) none)
    tasks ← build_delete_tasks vs
    pure (task ∷ tasks)

  abbrev pub mark_stuck : List VideoId → M Error (Unit {0})
  mark_stuck ids =
      if is_empty ids
      then pure tt
      else on_error db_error
          (statement env (λ _. Videos.bulk_mark_failed ids (uploaded ∷ processing ∷ [])))

  abbrev pub create_tasks : List Task → M Error (Unit {0})
  create_tasks tasks =
      if is_empty tasks
      then pure tt
      else on_error db_error (statement env (λ _. Tasks.bulk_create tasks))

  -- From the known threshold on.
  unfoldable pub sweep : DateTime → M Error CleanupStats
  sweep threshold = do
    stale ← on_error db_error (statement env (λ _. Videos.find_stale threshold))
    failed_videos ← on_error db_error (statement env (λ _. Videos.find_failed_before threshold))
    let stuck_ids = collect_stuck_ids stale
    mark_stuck stuck_ids
    tasks ← on_error db_error (build_delete_tasks (stale ++ failed_videos))
    create_tasks tasks
    pure (record {
      pending_scheduled = as_u32 (length (keep (λ v. status_eq v.status pending_upload) stale));
      stuck_scheduled = as_u32 (length stuck_ids);
      failed_scheduled = as_u32 (length failed_videos);
    })

  unfoldable pub execute : M Error CleanupStats
  execute = do t ← turn env; sweep (t.now -ℤ pos (from_secs (24 * 60 * 60)))
