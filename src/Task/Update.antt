-- ===== src/Task/Update.antt =====
-- `Task::compute_update` of crates/domain/src/task/mod.rs, with its branches and the backoff.
pub mod Backoff
use benri_stream.Prelude.{
  ℕ, ◌^◌, ◌%◌, String, Bool, Option, none, some, [], ◌∷◌, if◌then◌else◌, concat, not, false, ℤ, pos,
  ◌+ℤ◌, ◌*ℤ◌, quot, ltb_ℤ, min_ℤ, max_ℤ, as_signed, as_unsigned, saturate_i64,
}
use benri_stream.Video.{DateTime}
use benri_stream.Task.Status.{TaskStatus, pending, completed, dead_letter}
use benri_stream.Task.Types.{
  Duration, millis_i64, milliseconds, seconds, Task, TaskUpdate, TaskRunOutcome, TaskMetadata,
  OutcomeKind, TaskResult,
}

abbrev pub max_retry_backoff_secs : ℤ
max_retry_backoff_secs = pos 1800

abbrev pub max_backoff_exponent : ℤ
max_backoff_exponent = pos 10

-- `1i64 << exp`: a release build takes the shift modulo 64.
unfoldable pub shl_one : ℕ → ℤ
shl_one exp = as_signed 64 (pos (2 ^ (exp % 64)))

-- The delay in nanoseconds.
unfoldable pub calculate_retry_delay : TaskMetadata → ℤ → ℤ
calculate_retry_delay metadata attempt_count =
    let base_ms = millis_i64 metadata.retry_base_delay in
    let exp = as_unsigned 32 (min_ℤ attempt_count max_backoff_exponent) in
    let delay_ms = saturate_i64 (base_ms *ℤ shl_one exp) in
    let capped_secs = min_ℤ (quot delay_ms 1000) max_retry_backoff_secs in
    seconds (max_ℤ capped_secs (pos 0))

abbrev or_else {ℓ} : {A : Type ℓ} → Option A → Option A → Option A
or_else (some a) b = some a
or_else none b = b

-- Each method of `Task` takes the time that it reads as `now`.
module _ (t : Task) (now : DateTime) where
  unfoldable pub on_permanent_failure : String → OutcomeKind → TaskRunOutcome
  on_permanent_failure error kind = record {
    update = record {
      task_id = t.id;
      status = dead_letter;
      attempt_count = t.attempt_count;
      next_run_at = none;
      error = some error;
      completed_at = some now;
      updated_at = now;
    };
    kind = kind;
  }

  abbrev success_at : Option Duration → TaskUpdate
  success_at (some d) = record {
    task_id = t.id;
    status = pending;
    attempt_count = pos 0;
    next_run_at = some (now +ℤ milliseconds (millis_i64 d));
    error = none;
    completed_at = some now;
    updated_at = now;
  }
  success_at none = record {
    task_id = t.id;
    status = completed;
    attempt_count = t.attempt_count;
    next_run_at = none;
    error = none;
    completed_at = some now;
    updated_at = now;
  }

  unfoldable pub on_success : TaskMetadata → Option Duration → TaskRunOutcome
  on_success metadata reschedule_after = record {
    update = success_at (or_else reschedule_after metadata.execution_interval);
    kind = OutcomeKind.success;
  }

  unfoldable pub can_retry : TaskMetadata → Bool
  can_retry metadata = elim metadata.max_retries [
    | none ↦ false
    | some max ↦ ltb_ℤ t.attempt_count max
  ]

  unfoldable pub retry_delay : TaskMetadata → Option Duration → ℤ
  retry_delay metadata retry_after = elim retry_after [
    | some d ↦ milliseconds (millis_i64 d)
    | none ↦ calculate_retry_delay metadata t.attempt_count
  ]

  unfoldable pub on_retryable_failure : TaskMetadata → String → Option Duration → TaskRunOutcome
  unfolding on_permanent_failure can_retry
  on_retryable_failure metadata error retry_after =
      let new_attempt = as_signed 32 (t.attempt_count +ℤ pos 1) in
      if not (can_retry metadata) then on_permanent_failure error OutcomeKind.failed else record {
        update = record {
          task_id = t.id;
          status = pending;
          attempt_count = new_attempt;
          next_run_at = some (now +ℤ retry_delay metadata retry_after);
          error = some error;
          completed_at = none;
          updated_at = now;
        };
        kind = OutcomeKind.retried;
      }

  abbrev skip_at : Option Duration → String → TaskUpdate
  skip_at (some interval) reason = record {
    task_id = t.id;
    status = pending;
    attempt_count = t.attempt_count;
    next_run_at = some (now +ℤ milliseconds (millis_i64 interval));
    error = some (concat ("Skipped: " ∷ reason ∷ []));
    completed_at = none;
    updated_at = now;
  }
  skip_at none reason = record {
    task_id = t.id;
    status = completed;
    attempt_count = t.attempt_count;
    next_run_at = none;
    error = some (concat ("Skipped: " ∷ reason ∷ []));
    completed_at = some now;
    updated_at = now;
  }

  unfoldable pub on_skip : TaskMetadata → String → TaskRunOutcome
  on_skip metadata reason = record {
    update = skip_at metadata.execution_interval reason;
    kind = OutcomeKind.success;
  }

  unfoldable pub on_terminate : String → TaskRunOutcome
  on_terminate reason = record {
    update = record {
      task_id = t.id;
      status = completed;
      attempt_count = t.attempt_count;
      next_run_at = none;
      error = some (concat ("Terminated: " ∷ reason ∷ []));
      completed_at = some now;
      updated_at = now;
    };
    kind = OutcomeKind.success;
  }

  unfoldable pub compute_update : TaskMetadata → TaskResult → TaskRunOutcome
  unfolding on_success on_retryable_failure on_permanent_failure on_skip on_terminate
  compute_update metadata (TaskResult.success message reschedule_after) =
      on_success metadata reschedule_after
  compute_update metadata (TaskResult.retryable_failure error retry_after) =
      on_retryable_failure metadata error retry_after
  compute_update metadata (TaskResult.permanent_failure error) =
      on_permanent_failure error OutcomeKind.failed
  compute_update metadata (TaskResult.skip reason) = on_skip metadata reason
  compute_update metadata (TaskResult.terminate reason) = on_terminate reason
