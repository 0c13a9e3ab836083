-- ===== src/Tests/UseCaseRuns.antt =====
-- Use cases in a quiet environment.
use benri_stream.Prelude.{
  none, some, ◌≡◌, ◌⊎◌, refl, ◌++◌, ◌∷◌, [], List, In, find, any, eqb, false, map, pos, concat,
  trim, trim_start, trim_end, is_whitespace,
}
use benri_stream.Platform.{ok}
use benri_stream.Video.{Video, VideoId, pending_upload, uploaded, storage_prefix}
use benri_stream.Video.Format
use benri_stream.Task.Types.{Task}
use benri_stream.Task.Metadata.{process_video, delete_video}
use benri_stream.Task.Scheduler.{build_pending_task, pending_task}
use benri_stream.Db.Videos
use benri_stream.Db.Tasks
use benri_stream.Db.Tasks.Order.{IsBatch}
use benri_stream.Effects.Ports.{World, deleted_prefix, deleted_object}
use benri_stream.Effects.Transactions.{begun, run_atomic}
use benri_stream.Effects.Database.{run, statement, tx_statement, storage_call}
use benri_stream.UseCases.Scheduling.{schedule_in_tx}
use benri_stream.UseCases.InitiateUpload
use benri_stream.UseCases.InitiateUpload.Created.{IsCreated, execute-IsCreated}
use benri_stream.UseCases.CompleteUpload
use benri_stream.UseCases.CompleteUpload.{upload_transaction, transition_to_uploaded}
use benri_stream.UseCases.CompleteUpload.Atomic.{TransitionOutcome, transition_to_uploaded_atomic}
use benri_stream.UseCases.CompleteUpload.Accepted.{IsAccepted, execute-IsAccepted}
use benri_stream.UseCases.DeleteVideo
use benri_stream.UseCases.DeleteVideo.Cleared.{execute-cleared}
use benri_stream.UseCases.CleanupStaleVideos.{build_delete_tasks}
use benri_stream.UseCases.CleanupStaleVideos.Deletions.{delete_key, build_delete_tasks-keys}
use benri_stream.System.{Reach, start, empty_db}
use benri_stream.System.Reaching.Workers.{process_one-Reach}
use benri_stream.System.Reaching.Requests.{requests-Reach}
use benri_stream.Worker.Consumer.{process_one}
use benri_stream.Worker.Periodic.{do_poll, publish}
use benri_stream.Worker.Periodic.Polls.{do_poll-IsBatch}
use benri_stream.Tests.Samples.{platform, video, task, waiting, busy, due, quiet_env, arrived_env}

transition_to_uploaded_atomic_example :
    TransitionOutcome platform 7
      (begun quiet_env waiting).db
      (transition_to_uploaded platform quiet_env none 7 waiting).1.db
      (transition_to_uploaded platform quiet_env none 7 waiting).0
transition_to_uploaded_atomic_example =
    transition_to_uploaded_atomic platform quiet_env none 7 waiting

run_atomic_example :
    ((run quiet_env (upload_transaction platform quiet_env none 7) waiting).1.db
      ≡ (begun quiet_env waiting).db)
    ⊎ ((a : _) × ((upload_transaction platform quiet_env none 7 (begun quiet_env waiting)).0 ≡ ok a)
        × ((run quiet_env (upload_transaction platform quiet_env none 7) waiting).1.db
            ≡ (upload_transaction platform quiet_env none 7 (begun quiet_env waiting)).1.db))
run_atomic_example = run_atomic quiet_env (upload_transaction platform quiet_env none 7) waiting

process_one-Reach_example : Reach busy.db (process_one platform quiet_env 11 busy).1.db
process_one-Reach_example = process_one-Reach platform quiet_env (λ n db. start) 11 busy

requests-Reach_example :
    ((input : InitiateUpload.Input)
      → Reach waiting.db (InitiateUpload.execute platform arrived_env input waiting).1.db)
    × ((id : VideoId)
        → Reach waiting.db (CompleteUpload.execute platform arrived_env none id waiting).1.db)
requests-Reach_example = requests-Reach platform arrived_env (λ n db. start) none waiting

abbrev new_input : InitiateUpload.Input
new_input = record { title = "A walk"; mime_type = "video/mp4" }

abbrev empty : World
empty = record waiting { db = empty_db }

execute-IsCreated_example :
    (v : Video) × In v (InitiateUpload.execute platform quiet_env new_input empty).1.db.videos
    × IsCreated new_input (record { id = 11; upload_url = "https://upload" }) v
unfolding InitiateUpload.execute InitiateUpload.create_video InitiateUpload.new_video
    InitiateUpload.upload_url InitiateUpload.upload_key statement Videos.insert
    Format.from_mime_type Format.extension concat trim trim_start trim_end is_whitespace
execute-IsCreated_example =
    execute-IsCreated platform quiet_env new_input empty
      (record { id = 11; upload_url = "https://upload" })
      (InitiateUpload.execute platform quiet_env new_input empty).1 refl

execute-IsAccepted_example :
    (v : Video) × (find (λ u. eqb u.id 7) (video ∷ []) ≡ some v)
    × (v.status ≡ pending_upload)
    × IsAccepted platform arrived_env none v
        (begun arrived_env waiting)
        (record { id = 7; status = uploaded })
        (CompleteUpload.execute platform arrived_env none 7 waiting).1
unfolding CompleteUpload.execute CompleteUpload.check_upload CompleteUpload.after_size
    CompleteUpload.check_signature CompleteUpload.after_signature
    CompleteUpload.transition_to_uploaded schedule_in_tx build_pending_task process_video run
    statement tx_statement Videos.find_by_id Videos.update_status_if Tasks.create Tasks.too_long
    Format.validate_signature concat
execute-IsAccepted_example =
    execute-IsAccepted platform arrived_env none 7 waiting (record { id = 7; status = uploaded })
      (CompleteUpload.execute platform arrived_env none 7 waiting).1 refl

execute-cleared_example :
    (v : Video) × (find (λ u. eqb u.id 7) (video ∷ []) ≡ some v)
    × (any (λ u. eqb u.id v.id) (DeleteVideo.execute platform quiet_env 7 waiting).1.db.videos
        ≡ false)
    × ((DeleteVideo.execute platform quiet_env 7 waiting).1.storage
        ≡ [] ++ deleted_prefix (storage_prefix platform v) ∷ deleted_object v.upload_key ∷ [])
unfolding DeleteVideo.execute statement storage_call Videos.find_by_id Videos.delete
execute-cleared_example =
    execute-cleared platform quiet_env 7 waiting
      (DeleteVideo.execute platform quiet_env 7 waiting).1 refl

do_poll-IsBatch_example :
    (rows : List Task) × IsBatch 100 (pos 2000) (task ∷ []) rows
    × ((do_poll quiet_env due).1.queue ≡ [] ++ map (λ r. r.id) rows)
unfolding do_poll publish statement Tasks.find_pending Tasks.mark_in_progress Tasks.selected
    Tasks.keyed_dedup Tasks.sort_by_run Tasks.insert_sorted Tasks.distinct_on Tasks.is_eligible
    Tasks.is_blocked process_video concat
do_poll-IsBatch_example = do_poll-IsBatch quiet_env due (do_poll quiet_env due).1 refl

build_delete_tasks-keys_example :
    map
      (λ t. t.ordering_key)
      (pending_task (pos 2000) 11 none (delete_video platform 7) none "7" ∷ [])
    ≡ map (delete_key platform) (video ∷ [])
unfolding build_delete_tasks build_pending_task delete_video
build_delete_tasks-keys_example =
    build_delete_tasks-keys platform quiet_env none (video ∷ []) waiting
      (pending_task (pos 2000) 11 none (delete_video platform 7) none "7" ∷ []) refl
