-- ===== src/System/Reaching/Workers.antt =====
-- The changes of the consumers of crates/worker/src/consumer.rs as steps: a task id is popped, its
-- handler runs, and the outcome is persisted.
use benri_stream.Prelude.{
  inl, inr, Bool-cases, String, Option, none, some, Bool, true, false, [], ◌∷◌, ◌==◌, ◌+◌,
  if◌then◌else◌,
}
use benri_stream.Platform.{Platform, Result, ok, err}
use benri_stream.Video.{DateTime}
use benri_stream.Task.Types.{Task, TaskId, TaskMetadata, TaskResult, TaskRunOutcome, Duration}
use benri_stream.Task.Update.{compute_update}
use benri_stream.Db.Tables.{Db, after}
use benri_stream.Db.Tasks
use benri_stream.Task.Metadata.{process_video_type, delete_video_type, cleanup_stale_videos_type}
use benri_stream.Effects.Ports.{Env, World, Run}
use benri_stream.Effects.Database.{statement}
use benri_stream.Effects.Keeps.{Keeps-statement}
use benri_stream.Worker.Handlers.{
  TypedTaskHandler, dead_letter_outcome, run_with_timeout, invoke_with, invoke,
  process_video_handler, delete_video_handler, cleanup_stale_handler, dispatch,
}
use benri_stream.Worker.Consumer.{fetch_in_progress_task, process_found, process_one}
use benri_stream.System.{Step, Reach, start}
use benri_stream.System.Reaching.{AreSteps, Stays, between, Stays-statement, process_video-Stays}
use benri_stream.System.Reaching.Requests.{delete_video-Stays}
use benri_stream.System.Reaching.Cleanup.{cleanup_stale-Stays}

-- What a handler's run can end with.
data IsOutcome (task : Task) : TaskRunOutcome → Type 0 where
  computed :
      (now : DateTime) (m : TaskMetadata) (r : TaskResult)
      → IsOutcome task (compute_update task now m r)
  buried : (now : DateTime) (error : String) → IsOutcome task (dead_letter_outcome task now error)

persisted :
    (task : Task) (o : TaskRunOutcome)
    → IsOutcome task o
    → (db : Db) → Step db (after (Tasks.batch_update (o.update ∷ [])) db)
persisted task _ (computed now m r) db = Step.persist task now m r
persisted task _ (buried now error) db = Step.bury task now error

module _ (start_db : Db) where
  abbrev Ends : {A : Type 0} → (A → Type 0) → A × World → Type 0
  Ends P (a, w) = P a × Reach start_db w.db

  Ends-if :
      {A : Type 0} (P : A → Type 0) (b : Bool) (x y : A × World)
      → Ends P x
      → Ends P y
      → Ends P (if b then x else y)
  Ends-if P true x y hx hy = hx
  Ends-if P false x y hx hy = hy

  module _ (p : Platform) (env : Env) (others : AreSteps env) (task : Task) where
    run_with_timeout-Ends :
        (timeout : Duration) (handle : Run TaskResult) (w : World)
        → ((v : World) → Reach start_db v.db → Reach start_db (handle v).1.db)
        → Reach start_db w.db
        → Reach start_db (run_with_timeout p env timeout handle w).1.db
    run_with_timeout-Ends timeout handle w k r =
        (Ends-if (λ _. Unit {0}) (env w.turn).timed_out _ _ (tt, r)
          (tt, k (record w { turn = w.turn + 1 }) r)).1

    module _ (h : TypedTaskHandler)
        (handles : (m : h.Metadata) (v : World)
          → Reach start_db v.db
          → Reach start_db (h.handle m v).1.db) where
      invoke_with-Ends :
          (metadata : Result String h.Metadata) (w : World)
          → Reach start_db w.db
          → Ends (IsOutcome task) (invoke_with p env h task metadata w)
      invoke_with-Ends (ok m) w r = (
        computed _ _ _,
        run_with_timeout-Ends (h.config m).processing_timeout (h.handle m) w (handles m) r,
      )
      invoke_with-Ends (err e) w r = (buried _ _, r)

      invoke-Ends :
          (w : World) → Reach start_db w.db → Ends (IsOutcome task) (invoke p env h task w)
      unfolding invoke
      invoke-Ends w r = invoke_with-Ends (h.from_value task.metadata) w r

    dispatch-Ends :
        (w : World) → Reach start_db w.db → Ends (IsOutcome task) (dispatch p env task w)
    unfolding dispatch
    dispatch-Ends w r =
        let trace = task.trace_id in
        elim (Bool-cases (task.metadata_type == process_video_type)) [
          | inl e ↦ rw (e) (
              invoke-Ends (process_video_handler p env trace)
                (λ id v q. (process_video-Stays start_db env others p trace id).at v q) w r)
          | inr e ↦ elim (Bool-cases (task.metadata_type == delete_video_type)) [
            | inl e' ↦
                rw (e, e')
                  (invoke-Ends (delete_video_handler p env trace)
                    (λ id v q. (delete_video-Stays start_db env others p id).at v q) w r)
            | inr e' ↦ elim (Bool-cases (task.metadata_type == cleanup_stale_videos_type)) [
              | inl e'' ↦
                  rw (e, e', e'')
                    (invoke-Ends (cleanup_stale_handler p env trace)
                      (λ _ v q. (cleanup_stale-Stays start_db env others p trace).at v q) w r)
              | inr e'' ↦ rw (e, e', e'') (buried _ _, r)
            ]
          ]
        ]

  module _ (p : Platform) (env : Env) (others : AreSteps env) where
    process_found-reaches :
        (task : Option Task) (w : World)
        → Reach start_db w.db
        → Reach start_db (process_found p env task w).1.db
    process_found-reaches none w r = r
    process_found-reaches (some task) w r =
        let (outcome, ended) = dispatch-Ends p env others task w r in
        (Stays-statement start_db env others
            (λ _. Tasks.batch_update ((dispatch p env task w).0.update ∷ []))
            (λ _ db. persisted task (dispatch p env task w).0 outcome db)).at
          (dispatch p env task w).1 ended

    find-Stays :
        (id : TaskId) → Stays start_db env others (statement env (λ _. Tasks.find_by_id id))
    find-Stays id =
        Keeps-statement env _ (λ t db r. unfold Tasks.find_by_id in r) (between start_db env others)

-- Whatever a consumer does with a task id, handler included, the tables that it leaves are reached
-- by steps of the system from those that it found, if what the other processes do meanwhile is made
-- of steps too.
pub process_one-Reach :
    (p : Platform) (env : Env)
    → AreSteps env
    → (id : TaskId) (w : World) → Reach w.db (process_one p env id w).1.db
unfolding process_one fetch_in_progress_task
process_one-Reach p env others id w =
    process_found-reaches w.db p env others _ _ ((find-Stays w.db p env others id).at w start)
