-- ===== src/Tests/Databases.antt =====
-- Tables that the system reaches.
use benri_stream.Prelude.{
  [], ◌∷◌, some, ◌≡◌, ◌⊎◌, refl, pos, any, eqb, true, false, In, here, concat,
}
use benri_stream.Video.{Video, pending_upload, uploaded, processing, processed}
use benri_stream.Db.Tasks.Order.{IsBatch, find_pending-IsBatch}
use benri_stream.Task.Types.{Task}
use benri_stream.Task.Metadata.{process_video}
use benri_stream.Db.Tables.{Db, after}
use benri_stream.Db.Videos
use benri_stream.Db.Videos.Tokens.{TokenFits}
use benri_stream.Db.Videos.Lifecycle.{Moves, can_become}
use benri_stream.Db.Tasks
use benri_stream.System.{empty_db, claim, Step, Reach, start, next}
use benri_stream.System.Invariant.{
  Reach-IsExclusive, Reach-TokenFits, Reach-token_unique, Step-can_become,
}
use benri_stream.Tests.Samples.{video, task, task-IsBuilt}

-- An upload that is complete and claimed.
abbrev inserted : Db
inserted = after (Videos.insert video) empty_db

abbrev claimed : Db
claimed =
    after (Videos.update_status_if 7 uploaded processing)
      (after (Videos.update_status_if 7 pending_upload uploaded) inserted)

abbrev finished : Db
finished = after (Videos.mark_processed 7 "abc") claimed

claimed-Reach : Reach empty_db claimed
claimed-Reach =
    next (next (next start (Step.initiate video refl refl)) (Step.change_status 7 Moves.complete))
      (Step.change_status 7 Moves.claim)

finished-Reach : Reach empty_db finished
finished-Reach = next claimed-Reach (Step.finish 7 "abc")

-- A task in progress.
abbrev running : Db
running = after (claim 100 (pos 2000)) (after (Tasks.create task) empty_db)

running-Reach : Reach empty_db running
running-Reach = next (next start (Step.schedule task task-IsBuilt)) (Step.poll 100 (pos 2000))

abbrev running_task : Task
running_task = Tasks.start_task (pos 2000) task

abbrev finished_video : Video
finished_video = record video { status = processed; share_token = some "abc" }

running-In : In running_task running.tasks
unfolding claim Tasks.create Tasks.too_long Tasks.find_pending Tasks.mark_in_progress Tasks.selected
    Tasks.keyed_dedup Tasks.sort_by_run Tasks.insert_sorted Tasks.distinct_on Tasks.is_eligible
    Tasks.is_blocked process_video concat
running-In = here refl

finished-In : In finished_video finished.videos
unfolding Videos.insert Videos.update_status_if Videos.mark_processed
finished-In = here refl

Reach-IsExclusive_example : running_task.id ≡ 11
unfolding process_video concat
Reach-IsExclusive_example =
    Reach-IsExclusive running running-Reach running_task running_task "video_process:seven"
      running-In running-In refl refl refl refl

Reach-TokenFits_example : TokenFits processed (some "abc")
Reach-TokenFits_example = Reach-TokenFits finished finished-Reach finished_video finished-In

Reach-token_unique_example : finished_video.id ≡ 7
Reach-token_unique_example =
    Reach-token_unique finished finished-Reach finished_video finished_video "abc" finished-In
      finished-In refl refl

Step-can_become_example :
    (processed ≡ pending_upload) × (any (λ u. eqb u.id 7) claimed.videos ≡ false)
    ⊎ ((u : Video) × In u claimed.videos × (7 ≡ u.id) × (can_become u.status processed ≡ true))
Step-can_become_example =
    Step-can_become claimed finished (Step.finish 7 "abc") finished_video finished-In

find_pending-IsBatch_example : IsBatch 100 (pos 2000) (task ∷ []) (task ∷ [])
unfolding Tasks.find_pending Tasks.selected Tasks.keyed_dedup Tasks.sort_by_run Tasks.insert_sorted
    Tasks.distinct_on Tasks.is_eligible Tasks.is_blocked process_video concat
find_pending-IsBatch_example =
    find_pending-IsBatch 100 (pos 2000) (record { videos = []; tasks = task ∷ [] }) (task ∷ []) refl
