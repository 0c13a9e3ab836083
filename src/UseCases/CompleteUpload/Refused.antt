-- ===== src/UseCases/CompleteUpload/Refused.antt =====
-- `execute` of crates/application/src/usecases/video/complete_upload.rs under a trace id that is too
-- long for its column.
use benri_stream.Prelude.{ℕ, String, Option, none, true, ◌≡◌, sym, subst, arith}
use benri_stream.Platform.{Platform, ok}
use benri_stream.Video.{DateTime, VideoId}
use benri_stream.Task.Types.{Task, TaskId, TaskMetadata}
use benri_stream.Task.Metadata
use benri_stream.Task.Scheduler.{build_pending_task}
use benri_stream.Db.Tables.{Db, after}
use benri_stream.Db.Videos
use benri_stream.Db.Tasks
use benri_stream.Db.Tasks.{too_long}
use benri_stream.Effects.Ports.{Env}
use benri_stream.Effects.Database.{statement}
use benri_stream.Effects.Keeps.{
  Keeps, Keeps-pure, Keeps-attempt, Keeps-then, Keeps-bind, Keeps-bind_lift, Keeps-turn,
  Keeps-statement,
}
use benri_stream.UseCases.Scheduling.{schedule_standalone}
use benri_stream.UseCases.CompleteUpload.{
  execute, transition_to_uploaded, schedule_delete_after_rejection,
}
use benri_stream.UseCases.CompleteUpload.Atomic.{transition_too_long}
use benri_stream.UseCases.CompleteUpload.Kept.{execute-Keeps}

-- The tables that the other processes alone make of `db`.
pub data ByOthers (env : Env) (db : Db) : Db → Type 0 where
  untouched : ByOthers env db db
  others : {db' : Db} (n : ℕ) → ByOthers env db db' → ByOthers env db ((env n).interfere db')

create-refused : (t : Task) (db : Db) → too_long t.trace_id ≡ true → after (Tasks.create t) db ≡ db
unfolding Tasks.create
create-refused t db long = ground arith

built_trace :
    (m : TaskMetadata) (now : DateTime) (n : TaskId) (trace : Option String) (t : Task)
    → build_pending_task now n trace m none ≡ ok t
    → t.trace_id ≡ trace
unfolding build_pending_task
built_trace m now n trace t e = ground arith

module _ (p : Platform) (env : Env) (trace : Option String) (long : too_long trace ≡ true)
    (start : Db) where
  abbrev Unmoved : Db → Type 0
  Unmoved = ByOthers env start

  find-Keeps : (id : VideoId) → Keeps Unmoved (statement env (λ _. Videos.find_by_id id))
  find-Keeps id =
      Keeps-statement env _ (λ t db r. unfold Videos.find_by_id in r) (λ n db r. others n r)

  schedule-Keeps : (m : TaskMetadata) → Keeps Unmoved (schedule_standalone env trace m none)
  unfolding schedule_standalone
  schedule-Keeps m = Keeps-bind _ _ (Keeps-turn env) (λ t. Keeps-bind_lift _ _ (λ task e.
      Keeps-statement env (λ _. Tasks.create task)
        (λ _ db r.
          let fits =
            subst (λ x. too_long x ≡ true) (sym (built_trace m t.now t.uuid trace task e)) long in
          subst Unmoved (sym (create-refused task db fits)) r)
        (λ n db r. others n r)))

  rejected-Keeps : (id : VideoId) → Keeps Unmoved (schedule_delete_after_rejection p env trace id)
  unfolding schedule_delete_after_rejection
  rejected-Keeps id =
      Keeps-then _ _ (Keeps-attempt _ (schedule-Keeps (Metadata.delete_video p id))) (Keeps-pure tt)

  transition-Keeps : (id : VideoId) → Keeps Unmoved (transition_to_uploaded p env trace id)
  transition-Keeps id = record {
    at = λ w r. subst Unmoved (sym (transition_too_long p env trace id w long)) (others w.turn r);
  }

  -- Nothing that `execute` does under such a trace id changes the tables, whatever it answers.
  pub execute_unmoved : (id : VideoId) → Keeps (ByOthers env start) (execute p env trace id)
  execute_unmoved = execute-Keeps p env trace find-Keeps transition-Keeps rejected-Keeps
