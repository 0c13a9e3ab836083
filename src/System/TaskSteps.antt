-- ===== src/System/TaskSteps.antt =====
-- The statements on the table `tasks`: unique ids and exclusive keys.
use benri_stream.Prelude.{
  ℕ, String, none, some, List, [], ◌∷◌, ◌≡◌, ◌≢◌, refl, inl, inr, arith, map, any, eqb, All, take,
  Bool, true, false, not, ◌&&◌, ◌||◌, Bool-cases, In-take, update_where,
}
use benri_stream.Video.{DateTime}
use benri_stream.Task.Status.{in_progress}
use benri_stream.Task.Types.{Task, TaskUpdate, TaskMetadata, TaskResult}
use benri_stream.Task.Update.{compute_update}
use benri_stream.Task.Scheduler.{build_pending_task}
use benri_stream.Db.Tables.{Db, after}
use benri_stream.Db.Tasks.{
  find_pending, mark_in_progress, batch_update, apply_update, update_row, reset_task, all_new,
  reset_stale, create, bulk_create, too_long, is_stale, sort_by_run, selected,
}
use benri_stream.Db.Tasks.Exclusion.{
  IsConsistent, update_where-UniqueIds, update_where-IsExclusive, mark-IsExclusive,
}
use benri_stream.Db.Tasks.Selection.{In-sort_by_run}
use benri_stream.Db.Tasks.Growth.{append-IsConsistent}
use benri_stream.Worker.Handlers.{dead_letter_outcome}
use benri_stream.System.{claim, IsBuilt}

pub compute_update-idle :
    (t : Task) (now : DateTime) (m : TaskMetadata) (r : TaskResult)
    → (compute_update t now m r).update.status ≢ in_progress
unfolding compute_update
compute_update-idle t now m (TaskResult.success message (some d)) = ground arith
compute_update-idle t now m (TaskResult.success message none) = ground arith
compute_update-idle t now m r = ground arith

-- The tasks that the poller takes.
pub claim-IsConsistent :
    (limit : ℕ) (now : DateTime) (db : Db)
    → IsConsistent db.tasks
    → IsConsistent (after (claim limit now) db).tasks
unfolding claim find_pending mark_in_progress
claim-IsConsistent limit now db c = record {
  unique = update_where-UniqueIds _ _ (λ t. refl) db.tasks c.unique;
  exclusive =
      mark-IsExclusive db.tasks now (take limit (sort_by_run (selected db.tasks now)))
        (λ a i. In-sort_by_run (selected db.tasks now) a (In-take limit _ a i)) now c;
}

one_update :
    (u : TaskUpdate) (ts : List Task)
    → map (update_row (u ∷ [])) ts ≡ update_where (λ t. eqb t.id u.task_id) (apply_update u) ts
one_update u [] = refl
one_update u (t ∷ ts) = rw (one_update u ts)

apply_update-id : (u : TaskUpdate) (t : Task) → (apply_update u t).id ≡ t.id
unfolding apply_update
apply_update-id u t = refl

pub batch_update-IsConsistent :
    (u : TaskUpdate) (db : Db)
    → u.status ≢ in_progress
    → IsConsistent db.tasks
    → IsConsistent (after (batch_update (u ∷ [])) db).tasks
unfolding batch_update
batch_update-IsConsistent u db idle c =
    rw (one_update u db.tasks, after)
      record {
        unique =
            update_where-UniqueIds (λ t. eqb t.id u.task_id) (apply_update u) (apply_update-id u)
              db.tasks c.unique;
        exclusive =
            update_where-IsExclusive (λ t. eqb t.id u.task_id) (apply_update u) (apply_update-id u)
              db.tasks (λ t h. stops t) c.exclusive;
      }
  where
    stops : (t : Task) → (apply_update u t).status ≢ in_progress
    stops t = unfold apply_update in idle

pub reset_stale-IsConsistent :
    (now : DateTime) (db : Db)
    → IsConsistent db.tasks
    → IsConsistent (after (reset_stale now) db).tasks
unfolding reset_stale
reset_stale-IsConsistent now db c = record {
  unique = update_where-UniqueIds (is_stale now) (reset_task now) (λ t. refl) db.tasks c.unique;
  exclusive =
      update_where-IsExclusive (is_stale now) (reset_task now) (λ t. refl) db.tasks
        (λ t h e. absurd (cc)) c.exclusive;
}

built-idle : (t : Task) → IsBuilt t → t.status ≢ in_progress
unfolding build_pending_task
built-idle t b = let e = b.built in ground arith

All-idle : (ts : List Task) → All IsBuilt ts → All (λ t. t.status ≢ in_progress) ts
All-idle [] h = tt
All-idle (t ∷ ts) h = (built-idle t h.0, All-idle ts h.1)

and_both : (a b : Bool) → (a && b) ≡ true → (a ≡ true) × (b ≡ true)
and_both a b h = ground arith

neither : (a b : Bool) → (a || b) ≡ false → (a ≡ false) × (b ≡ false)
neither a b h = ground arith

pub bulk_create-IsConsistent :
    (ts : List Task) (db : Db)
    → All IsBuilt ts
    → IsConsistent db.tasks
    → IsConsistent (after (bulk_create ts) db).tasks
unfolding bulk_create
bulk_create-IsConsistent [] db h c = c
bulk_create-IsConsistent (t ∷ ts) db h c =
    elim (Bool-cases (all_new db.tasks (t ∷ ts) && not (any (λ u. too_long u.trace_id) (t ∷ ts)))) [
      | inl e ↦
          let (new, _) = and_both (all_new db.tasks (t ∷ ts)) _ e in
          rw (e, after) (append-IsConsistent db.tasks (t ∷ ts) new (All-idle (t ∷ ts) h) c)
      | inr e ↦ rw (e, after) c
    ]

pub create-IsConsistent :
    (t : Task) (db : Db)
    → IsBuilt t
    → IsConsistent db.tasks
    → IsConsistent (after (create t) db).tasks
unfolding create
create-IsConsistent t db b c =
    elim (Bool-cases (any (λ u. eqb u.id t.id) db.tasks || too_long t.trace_id)) [
      | inl e ↦ rw (e, after) c
      | inr e ↦
          let (new, _) = neither (any (λ u. eqb u.id t.id) db.tasks) (too_long t.trace_id) e in
          rw (e, after) (append-IsConsistent db.tasks (t ∷ []) (rw new) (built-idle t b, tt) c)
    ]

pub dead_letter_outcome-idle :
    (t : Task) (now : DateTime) (error : String)
    → (dead_letter_outcome t now error).update.status ≢ in_progress
unfolding dead_letter_outcome
dead_letter_outcome-idle t now error = λ e. absurd (cc)
