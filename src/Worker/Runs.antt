-- ===== src/Worker/Runs.antt =====
-- What a task's row becomes when its handler has run: crates/domain/src/task/mod.rs with the
-- `batch_update` of crates/infrastructure/src/postgres/task_repository.rs.
use benri_stream.Prelude.{
  ℕ, suc, ◌+◌, ◌≤◌, ◌<◌, String, false, none, some, List, [], ◌∷◌, ◌≡◌, ◌≢◌, ap, ◌∙◌, ◌↔◌, inl, inr,
  if◌then◌else◌, ltb, arith, length, pos, ◌+ℤ◌, ◌≤ℤ◌, as_signed, +ℤ_parts, -ℤ_parts, Bool-cases,
}
use benri_stream.Video.{DateTime}
use benri_stream.Task.Status.{pending, dead_letter}
use benri_stream.Task.Types.{Task, TaskMetadata, TaskResult, OutcomeKind}
use benri_stream.Task.Update.{compute_update}
use benri_stream.Db.Tasks.{apply_update, is_stale, stale_recovery_interval}

-- The row after a run that ends in this result.
abbrev pub run : TaskMetadata → DateTime → TaskResult → Task → Task
run m now r t = apply_update (compute_update t now m r).update t

-- The row after runs that fail one after another, each at its time and with its error.
abbrev pub failing_runs : TaskMetadata → List (DateTime × String) → Task → Task
failing_runs m [] t = t
failing_runs m ((now, e) ∷ fs) t =
    failing_runs m fs (run m now (TaskResult.retryable_failure e none) t)

counted : (k : ℕ) → k < 2147483647 → as_signed 32 (pos k +ℤ pos 1) ≡ pos (suc k)
unfolding as_signed ◌+ℤ◌
counted k h = ground arith

one_failure :
    (m : TaskMetadata) (max k : ℕ) (t : Task) (now : DateTime) (e : String)
    → max < 2147483648
    → m.max_retries ≡ some (pos max)
    → t.attempt_count ≡ pos k
    → k < max
    → ((run m now (TaskResult.retryable_failure e none) t).attempt_count ≡ pos (suc k))
      × ((run m now (TaskResult.retryable_failure e none) t).status ≡ pending)
unfolding compute_update apply_update
one_failure m max k t now e b hm hk lt = ground (arith, counted k)

last_failure :
    (m : TaskMetadata) (max : ℕ) (t : Task) (now : DateTime) (e : String)
    → m.max_retries ≡ some (pos max)
    → t.attempt_count ≡ pos max
    → (run m now (TaskResult.retryable_failure e none) t).status ≡ dead_letter
unfolding compute_update apply_update
last_failure m max t now e hm hk = ground arith

failing_runs-attempts :
    (m : TaskMetadata) (max k : ℕ) (fs : List (DateTime × String)) (t : Task)
    → max < 2147483648
    → m.max_retries ≡ some (pos max)
    → t.attempt_count ≡ pos k
    → k + length fs ≤ max
    → (failing_runs m fs t).attempt_count ≡ pos (k + length fs)
failing_runs-attempts m max k [] t b hm hk le = ground arith
failing_runs-attempts m max k ((now, e) ∷ fs) t b hm hk le =
    let (counted, _) = one_failure m max k t now e b hm hk (omega arith) in
    let rest = failing_runs-attempts m max (suc k) fs _ b hm counted (omega arith) in
    rest ∙ ap pos (omega arith)

-- A task whose type allows `max` retries and whose attempts are not counted yet: after any number
-- of retryable failures up to `max`, one more failure makes it pending again if there were fewer
-- than `max`, and a dead letter if there were `max`. So a task is run `max + 1` times.
pub retry_budget :
    (m : TaskMetadata) (max : ℕ) (t : Task) (fs : List (DateTime × String)) (now : DateTime)
    (e : String)
    → max < 2147483648
    → m.max_retries ≡ some (pos max)
    → t.attempt_count ≡ pos 0
    → length fs ≤ max
    → (run m now (TaskResult.retryable_failure e none) (failing_runs m fs t)).status
      ≡ (if ltb (length fs) max then pending else dead_letter)
retry_budget m max t fs now e b hm h0 le = elim (Bool-cases (ltb (length fs) max)) [
  | inl more ↦
      rw more
        (one_failure m max (length fs) (failing_runs m fs t) now e b hm
          (failing_runs-attempts m max 0 fs t b hm h0 (omega arith) ∙ ap pos (omega arith))
          (ground arith)).1
  | inr done ↦ rw done (
      last_failure m max (failing_runs m fs t) now e hm
        (failing_runs-attempts m max 0 fs t b hm h0 (omega arith) ∙ ap pos (ground arith)))
]

-- For every task and every result of its handler: the outcome counts as failed exactly when the
-- task becomes a dead letter, it names a next run exactly when the task is pending, and it is about
-- that task and that time.
pub compute_update_outcome :
    (t : Task) (now : DateTime) (m : TaskMetadata) (r : TaskResult)
    → (((compute_update t now m r).kind ≡ OutcomeKind.failed)
        ↔ ((compute_update t now m r).update.status ≡ dead_letter))
      × (((compute_update t now m r).update.next_run_at ≡ none)
          ↔ ((compute_update t now m r).update.status ≢ pending))
      × ((compute_update t now m r).update.task_id ≡ t.id)
      × ((compute_update t now m r).update.updated_at ≡ now)
unfolding compute_update
compute_update_outcome t now m (TaskResult.success message after) = ground arith
compute_update_outcome t now m (TaskResult.retryable_failure error after) = ground arith
compute_update_outcome t now m (TaskResult.permanent_failure error) = ground arith
compute_update_outcome t now m (TaskResult.skip reason) = ground arith
compute_update_outcome t now m (TaskResult.terminate reason) = ground arith

-- Stale recovery leaves a task in progress alone if it was started at `s`, its processing timeout
-- is at most one hour, and no more time than the timeout has passed since `s`.
pub is_stale-within :
    (m : TaskMetadata) (t : Task) (s now : DateTime)
    → m.processing_timeout ≤ stale_recovery_interval
    → t.started_at ≡ some s
    → now ≤ℤ s +ℤ pos m.processing_timeout
    → is_stale now t ≡ false
unfolding is_stale
is_stale-within m t s now short hs within =
    rw (hs, is_stale)
      (ground
        (arith, +ℤ_parts s (pos m.processing_timeout), -ℤ_parts now (pos stale_recovery_interval)))
