-- ===== src/Tests/Failures.antt =====
-- A video that is already processed and has an active task for its deletion, and fails.
use benri_stream.Prelude.{[], ◌∷◌, ◌++◌, some, none, ◌≡◌, refl, concat}
use benri_stream.Video.{processed}
use benri_stream.Task.Types.{Task}
use benri_stream.Task.Metadata.{delete_video, delete_video_type}
use benri_stream.Task.Status.{pending}
use benri_stream.Task.Scheduler.{build_pending_task}
use benri_stream.Db.Videos
use benri_stream.Db.Tasks
use benri_stream.Effects.Ports.{World}
use benri_stream.Effects.Database.{run, tx_statement}
use benri_stream.UseCases.Scheduling.{schedule_in_tx}
use benri_stream.UseCases.ProcessVideo.{fail_and_schedule_delete}
use benri_stream.UseCases.ProcessVideo.Failed.{IsDeleteTask, fail_and_schedule_delete-IsDeleteTask}
use benri_stream.Tests.Samples.{task, platform, video, waiting, quiet_env}

abbrev active : Task
active = record task {
  id = 12;
  metadata_type = delete_video_type;
  status = pending;
  ordering_key = some "video_delete:seven";
}

abbrev shared : World
shared = record waiting {
  db = record {
    videos = record video { status = processed; share_token = some "abc" } ∷ [];
    tasks = active ∷ [];
  };
}

fail_and_schedule_delete-IsDeleteTask_example :
    (t : Task) × IsDeleteTask platform 7 t
    × ((fail_and_schedule_delete platform quiet_env none 7 shared).1.db
        ≡ record { videos = shared.db.videos; tasks = (active ∷ []) ++ t ∷ [] })
unfolding fail_and_schedule_delete run tx_statement schedule_in_tx build_pending_task delete_video
    Videos.update_status_if Tasks.create Tasks.too_long concat
fail_and_schedule_delete-IsDeleteTask_example =
    fail_and_schedule_delete-IsDeleteTask platform quiet_env none 7 shared refl
