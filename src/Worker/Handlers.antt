-- ===== src/Worker/Handlers.antt =====
-- crates/worker/src/handlers: the typed handlers, the adapter that erases their types, and the
-- dispatch by the type of the metadata.
use benri_stream.Prelude.{
  ◌+◌, String, Option, none, some, [], ◌∷◌, ◌==◌, if◌then◌else◌, concat, show_nat,
}
use benri_stream.Platform.{Platform, Result, ok, err}
use benri_stream.Video.{DateTime, VideoId}
use benri_stream.Task.Status.{dead_letter}
use benri_stream.Task.Types.{Task, TaskMetadata, TaskResult, TaskRunOutcome, OutcomeKind, Duration}
use benri_stream.Task.Metadata.{
  process_video, delete_video, cleanup_stale_videos, process_video_type, delete_video_type,
  cleanup_stale_videos_type,
}
use benri_stream.Task.Update.{compute_update}
use benri_stream.Effects.Ports.{Env, World, Turn, M, Run}
use benri_stream.UseCases.ProcessVideo
use benri_stream.UseCases.DeleteVideo
use benri_stream.UseCases.CleanupStaleVideos
use benri_stream.UseCases.CleanupStaleVideos.{CleanupStats}

-- What each handler makes of the result of its use case.
unfoldable pub process_video_result : Result ProcessVideo.Error (Unit {0}) → TaskResult
process_video_result (ok done) = TaskResult.success none none
process_video_result (err ProcessVideo.video_not_found) =
    TaskResult.permanent_failure "video not found"
process_video_result (err (ProcessVideo.internal e)) = TaskResult.retryable_failure e none

unfoldable pub delete_video_result : Result DeleteVideo.Error (Unit {0}) → TaskResult
delete_video_result (ok done) = TaskResult.success none none
delete_video_result (err DeleteVideo.video_not_found) = TaskResult.skip "video already deleted"
delete_video_result (err (DeleteVideo.internal e)) = TaskResult.retryable_failure e none

unfoldable pub cleanup_stale_result : Result CleanupStaleVideos.Error CleanupStats → TaskResult
cleanup_stale_result (ok stats) =
    TaskResult.success
      (some (
        concat (
          "Scheduled deletion: "
          ∷ show_nat stats.pending_scheduled
          ∷ " pending, "
          ∷ show_nat stats.stuck_scheduled
          ∷ " stuck, "
          ∷ show_nat stats.failed_scheduled
          ∷ " failed"
          ∷ [])))
      none
cleanup_stale_result (err (CleanupStaleVideos.internal e)) =
    TaskResult.retryable_failure (concat ("internal error: " ∷ e ∷ [])) none

unfoldable pub dead_letter_outcome : Task → DateTime → String → TaskRunOutcome
dead_letter_outcome t now error = record {
  update = record {
    task_id = t.id;
    status = dead_letter;
    attempt_count = t.attempt_count;
    next_run_at = none;
    error = some error;
    completed_at = some now;
    updated_at = now;
  };
  kind = OutcomeKind.failed;
}

-- A `TypedTaskHandler`: its metadata type with `from_value` and the trait's configuration, and
-- `handle`.
pub record TypedTaskHandler : Type 1 where
  pub Metadata : Type 0
  pub from_value : String → Result String Metadata
  pub config : Metadata → TaskMetadata
  pub handle : Metadata → Run TaskResult

abbrev pub answer : {E A : Type 0} → (Result E A → TaskResult) → M E A → Run TaskResult
answer f m w = let (r, w') = m w in (f r, w')

abbrev ErasedHandler : Type 0
ErasedHandler = Task → Run TaskRunOutcome

module _ (p : Platform) (env : Env) where
  -- The reading of the clock, with the world behind it.
  abbrev pub clock : Run Turn
  clock w = (env w.turn, record w { turn = w.turn + 1 })

  -- A handler that is cancelled stops at one of its calls. What it has done until then is among the
  -- doings of the environment.
  abbrev pub run_with_timeout : Duration → Run TaskResult → Run TaskResult
  run_with_timeout timeout handle w =
      let (t, w') = clock w in
      if t.timed_out
      then (
        TaskResult.retryable_failure
            (concat ("handler timed out after " ∷ p.show_duration timeout ∷ [])) none,
        w',
      )
      else handle w'

  abbrev pub conclude : Task → TaskMetadata → TaskResult × World → TaskRunOutcome × World
  conclude task config (result, w) =
      let (t, w') = clock w in (compute_update task t.now config result, w')

  module _ (h : TypedTaskHandler) (task : Task) where
    abbrev pub invoke_with : Result String h.Metadata → Run TaskRunOutcome
    invoke_with (ok metadata) w =
        conclude task (h.config metadata)
          (run_with_timeout (h.config metadata).processing_timeout (h.handle metadata) w)
    invoke_with (err e) w =
        let (t, w') = clock w in
        (
          dead_letter_outcome task t.now
              (concat ("failed to deserialize metadata for " ∷ task.metadata_type ∷ ": " ∷ e ∷ [])),
          w',
        )

    -- `HandlerAdapter::invoke`
    unfoldable pub invoke : Run TaskRunOutcome
    invoke = invoke_with (h.from_value task.metadata)

  -- Each handler runs its use case with the trace id of the task.
  module _ (trace : Option String) where
    abbrev pub process_video_handler : TypedTaskHandler
    process_video_handler = record {
      Metadata = VideoId;
      from_value = p.video_id_from_value;
      config = process_video p;
      handle = λ id. answer process_video_result (ProcessVideo.execute p env trace id);
    }

    abbrev pub delete_video_handler : TypedTaskHandler
    delete_video_handler = record {
      Metadata = VideoId;
      from_value = p.video_id_from_value;
      config = delete_video p;
      handle = λ id. answer delete_video_result (DeleteVideo.execute p env id);
    }

    abbrev pub cleanup_stale_handler : TypedTaskHandler
    cleanup_stale_handler = record {
      Metadata = Unit {0};
      from_value = p.unit_from_value;
      config = λ _. cleanup_stale_videos p;
      handle = λ _. answer cleanup_stale_result (CleanupStaleVideos.execute p env trace);
    }

  abbrev pub no_handler : ErasedHandler
  no_handler task w =
      let (t, w') = clock w in
      (
        dead_letter_outcome task t.now
            (concat ("no handler registered for metadata type: " ∷ task.metadata_type ∷ [])),
        w',
      )

  -- `HandlerDispatch::dispatch` with the handlers that crates/worker/src/main.rs registers, in the
  -- scope of `dispatch_with_trace` of crates/worker/src/consumer.rs.
  unfoldable pub dispatch : Task → Run TaskRunOutcome
  dispatch task =
      if task.metadata_type == process_video_type
      then invoke (process_video_handler task.trace_id) task
      else if task.metadata_type == delete_video_type
      then invoke (delete_video_handler task.trace_id) task
      else if task.metadata_type == cleanup_stale_videos_type
      then invoke (cleanup_stale_handler task.trace_id) task
      else no_handler task
