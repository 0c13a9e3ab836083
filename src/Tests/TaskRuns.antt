-- ===== src/Tests/TaskRuns.antt =====
-- The retries of tasks.
use benri_stream.Prelude.{
  [], ◌∷◌, ◌≡◌, ◌≢◌, ◌↔◌, refl, none, pos, ◌≤ℤ◌, ◌*◌, arith, false, min, concat, ◌+ℤ◌, ◌^◌, ◌/◌,
}
use benri_stream.Task.Status.{pending, dead_letter}
use benri_stream.Task.Types.{TaskResult, OutcomeKind, seconds, from_secs}
use benri_stream.Task.Metadata.{process_video, delete_video}
use benri_stream.Task.Update.{calculate_retry_delay, compute_update}
use benri_stream.Task.Update.Backoff.{calculate_retry_delay_bounds, calculate_retry_delay_lem}
use benri_stream.Db.Tasks.{is_stale, start_task, reset_task, reset_stale}
use benri_stream.Db.Tables.{after}
use benri_stream.System.{claim}
use benri_stream.Worker.Runs.{
  run, failing_runs, retry_budget, compute_update_outcome, is_stale-within,
}
use benri_stream.System.Restart.{process_video_restarted}
use benri_stream.Tests.Samples.{platform, task}

calculate_retry_delay_bounds_example :
    (pos 0 ≤ℤ calculate_retry_delay (process_video platform 7) (pos 3))
    × (calculate_retry_delay (process_video platform 7) (pos 3) ≤ℤ seconds (pos 1800))
calculate_retry_delay_bounds_example =
    calculate_retry_delay_bounds (process_video platform 7) (pos 3)

calculate_retry_delay_lem_example :
    calculate_retry_delay (process_video platform 7) (pos 3)
    ≡ seconds (
        pos
          (min ((process_video platform 7).retry_base_delay / 1000000 * 2 ^ min 3 10 / 1000) 1800))
unfolding process_video
calculate_retry_delay_lem_example =
    calculate_retry_delay_lem (process_video platform 7) 3 (omega arith)

-- ProcessVideo: the second failure is the last.
retry_budget_example :
    (run
      (process_video platform 7)
      (pos 9)
      (TaskResult.retryable_failure "again" none)
      (failing_runs (process_video platform 7) ((pos 5, "first") ∷ []) task)).status
    ≡ dead_letter
unfolding process_video
retry_budget_example =
    retry_budget (process_video platform 7) 1 task ((pos 5, "first") ∷ []) (pos 9) "again"
      (omega arith) refl refl (omega arith)

compute_update_outcome_example :
    (((compute_update task
          (pos 9)
          (process_video platform 7)
          (TaskResult.permanent_failure "gone")).kind
        ≡ OutcomeKind.failed)
      ↔ ((compute_update task
            (pos 9)
            (process_video platform 7)
            (TaskResult.permanent_failure "gone")).update.status
          ≡ dead_letter))
    × (((compute_update task
            (pos 9)
            (process_video platform 7)
            (TaskResult.permanent_failure "gone")).update.next_run_at
          ≡ none)
        ↔ ((compute_update task
              (pos 9)
              (process_video platform 7)
              (TaskResult.permanent_failure "gone")).update.status
            ≢ pending))
    × ((compute_update task
          (pos 9)
          (process_video platform 7)
          (TaskResult.permanent_failure "gone")).update.task_id
        ≡ 11)
    × ((compute_update task
          (pos 9)
          (process_video platform 7)
          (TaskResult.permanent_failure "gone")).update.updated_at
        ≡ pos 9)
compute_update_outcome_example =
    compute_update_outcome task (pos 9) (process_video platform 7)
      (TaskResult.permanent_failure "gone")

-- A DeleteVideo task within its five minutes.
is_stale-within_example : is_stale (pos 4000) (start_task (pos 3000) task) ≡ false
unfolding delete_video ◌+ℤ◌
is_stale-within_example =
    is_stale-within (delete_video platform 7) (start_task (pos 3000) task) (pos 3000) (pos 4000)
      (omega arith) refl (ground arith)

-- Ninety minutes into a ProcessVideo task.
process_video_restarted_example :
    (after (claim 1 (pos (from_secs 5400))) (
      after
        (reset_stale (pos (from_secs 5400)))
        (record { videos = []; tasks = start_task (pos 0) task ∷ [] }))).tasks
    ≡ start_task
        (pos (from_secs 5400))
        (reset_task (pos (from_secs 5400)) (start_task (pos 0) task))
      ∷ []
unfolding process_video concat ◌+ℤ◌
process_video_restarted_example =
    process_video_restarted platform 7 (start_task (pos 0) task) "video_process:seven" (pos 0)
      (pos (from_secs 5400)) 0 [] refl refl refl (ground arith) (ground arith) (ground arith)
