-- ===== src/UseCases/Scheduling.antt =====
-- `TaskScheduler::schedule_in_tx` and `schedule_standalone` of
-- crates/domain/src/task/scheduler.rs. `trace` is the ambient trace id.
use benri_stream.Prelude.{String, Option}
use benri_stream.Video.{DateTime}
use benri_stream.Task.Types.{Task, TaskMetadata}
use benri_stream.Task.Scheduler.{RepositoryError, build_pending_task}
use benri_stream.Db.Tasks
use benri_stream.Effects.Ports.{Env, M, lift, ◌>>=◌}
use benri_stream.Effects.Database.{turn, statement, tx_statement}

module _ (env : Env) (trace : Option String) where
  unfoldable pub schedule_in_tx : TaskMetadata → Option DateTime → M RepositoryError Task
  schedule_in_tx metadata run_at = do
    t ← turn env
    task ← lift (build_pending_task t.now t.uuid trace metadata run_at)
    tx_statement env (λ _. Tasks.create task)

  unfoldable pub schedule_standalone : TaskMetadata → Option DateTime → M RepositoryError Task
  schedule_standalone metadata run_at = do
    t ← turn env
    task ← lift (build_pending_task t.now t.uuid trace metadata run_at)
    statement env (λ _. Tasks.create task)
