-- ===== src/Task/Scheduler.antt =====
-- `TaskScheduler::build_pending_task` of crates/domain/src/task/scheduler.rs. The time, the new id
-- and the ambient trace id are arguments.
use benri_stream.Prelude.{String, Option, none, some, pos}
use benri_stream.Platform.{Result, ok, err, map_err}
use benri_stream.Video.{DateTime}
use benri_stream.Task.Status.{pending}
use benri_stream.Task.Types.{TaskId, Task, TaskMetadata}

-- `RepositoryError` of crates/domain/src/ports/error.rs.
pub data RepositoryError : Type 0 where
  database : String → RepositoryError

abbrev unwrap_or {ℓ} : {A : Type ℓ} → Option A → A → A
unwrap_or none d = d
unwrap_or (some a) d = a

abbrev pub pending_task :
    DateTime → TaskId → Option String → TaskMetadata → Option DateTime → String → Task
pending_task now id trace_id metadata run_at metadata_json = record {
  id = id;
  metadata_type = metadata.metadata_type_name;
  metadata = metadata_json;
  status = pending;
  ordering_key = metadata.ordering_key;
  trace_id = trace_id;
  attempt_count = pos 0;
  next_run_at = unwrap_or run_at now;
  error = none;
  started_at = none;
  completed_at = none;
  created_at = now;
  updated_at = now;
}

abbrev pub map_ok : {E A B : Type 0} → (A → B) → Result E A → Result E B
map_ok f (ok a) = ok (f a)
map_ok f (err e) = err e

unfoldable pub build_pending_task :
    DateTime → TaskId → Option String → TaskMetadata → Option DateTime → Result RepositoryError Task
build_pending_task now id trace_id metadata run_at =
    map_ok (pending_task now id trace_id metadata run_at) (map_err database metadata.to_value)
