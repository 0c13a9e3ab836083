-- ===== src/Worker/Consumer.antt =====
-- crates/worker/src/consumer.rs: what happens to one task id that was popped.
use benri_stream.Prelude.{Option, none, some, [], ◌∷◌, not, if◌then◌else◌}
use benri_stream.Platform.{Platform, Result, ok, err}
use benri_stream.Task.Status.{in_progress, status_eq}
use benri_stream.Task.Types.{Task, TaskId, TaskRunOutcome, OutcomeKind}
use benri_stream.Task.Scheduler.{RepositoryError}
use benri_stream.Db.Tasks
use benri_stream.Effects.Ports.{Env, World, Run}
use benri_stream.Effects.Database.{statement}
use benri_stream.Worker.Handlers.{dispatch}

abbrev pub found_in_progress : Result RepositoryError (Option Task) → Option Task
found_in_progress (ok (some task)) =
    if not (status_eq task.status in_progress) then none else some task
found_in_progress (ok none) = none
found_in_progress (err e) = none

module _ (p : Platform) (env : Env) where
  unfoldable pub fetch_in_progress_task : TaskId → Run (Option Task)
  fetch_in_progress_task id w =
      let (r, w') = statement env (λ _. Tasks.find_by_id id) w in (found_in_progress r, w')

  -- A failure to persist is logged. The answer is the metric that is counted, if any.
  abbrev pub persist : TaskRunOutcome × World → Option OutcomeKind × World
  persist (outcome, w) =
      let (r, w') = statement env (λ _. Tasks.batch_update (outcome.update ∷ [])) w in
      (some outcome.kind, w')

  abbrev pub process_found : Option Task → Run (Option OutcomeKind)
  process_found none w = (none, w)
  process_found (some task) w = persist (dispatch p env task w)

  unfoldable pub process_one : TaskId → Run (Option OutcomeKind)
  process_one id w = let (task, w') = fetch_in_progress_task id w in process_found task w'
