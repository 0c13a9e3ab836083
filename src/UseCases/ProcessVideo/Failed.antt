-- ===== src/UseCases/ProcessVideo/Failed.antt =====
-- The tables after `fail_and_schedule_delete` of
-- crates/application/src/usecases/video/process_video.rs.
use benri_stream.Prelude.{
  ◌+◌, String, Option, none, some, [], ◌∷◌, ◌++◌, ◌≡◌, refl, sym, ap, ◌∙◌, arith, any, ◌||◌, eqb,
  update_where, concat, Bool-cases, inl, inr,
}
use benri_stream.Platform.{Platform, ok}
use benri_stream.Video.{VideoId, processing, failed}
use benri_stream.Task.Types.{Task, TaskId}
use benri_stream.Video.{DateTime}
use benri_stream.Task.Status.{pending}
use benri_stream.Task.Metadata.{delete_video, delete_video_type}
use benri_stream.Task.Scheduler.{database, build_pending_task}
use benri_stream.Db.Tables.{Db}
use benri_stream.Db.Videos
use benri_stream.Db.Tasks
use benri_stream.Db.Tasks.{too_long}
use benri_stream.Effects.Ports.{Env, World, Turn, lift, pure, ◌>>◌}
use benri_stream.Effects.Database.{tx_statement}
use benri_stream.Effects.Transactions.{begun, run-ok}
use benri_stream.Effects.Answers.{bind-end}
use benri_stream.Effects.Frames.{tx_statement-ok, tx_statement-err}
use benri_stream.UseCases.Scheduling.{schedule_in_tx}
use benri_stream.UseCases.ProcessVideo.{failure_transaction, fail_and_schedule_delete}

created :
    (env : Env) (t u : Task) (w end : World)
    → tx_statement env (λ _. Tasks.create t) w ≡ (ok u, end)
    → (u ≡ t) × (end.db ≡ record w.db { tasks = w.db.tasks ++ t ∷ [] })
unfolding Tasks.create
created env t u w end e =
    let answer = ap (λ x. x.0) e in
    elim (Bool-cases (any (λ v. eqb v.id t.id) w.db.tasks || too_long t.trace_id)) [
      | inl taken ↦ absurd (
          tx_statement-err env (λ _. Tasks.create t) w (database "tasks: a constraint is violated")
            u (rw taken refl) answer)
      | inr new ↦
          let (same, db) =
            tx_statement-ok env (λ _. Tasks.create t) w t
              (record w.db { tasks = w.db.tasks ++ t ∷ [] }) u (rw new refl) answer in
          (same, ap (λ x. x.1.db) (sym e) ∙ db)
    ]

-- A pending DeleteVideo task for the video, under the key of its deletion.
pub record IsDeleteTask (p : Platform) (id : VideoId) (t : Task) : Type 0 where
  pub type : t.metadata_type ≡ delete_video_type
  pub status : t.status ≡ pending
  pub metadata : p.video_id_to_value id ≡ ok t.metadata
  pub key : t.ordering_key ≡ some (concat ("video_delete:" ∷ p.show_uuid id ∷ []))

built-IsDeleteTask :
    (p : Platform) (id : VideoId) (now : DateTime) (n : TaskId) (trace : Option String) (t : Task)
    → build_pending_task now n trace (delete_video p id) none ≡ ok t
    → IsDeleteTask p id t
unfolding build_pending_task delete_video
built-IsDeleteTask p id now n trace t e = record {
  type = ground arith;
  status = ground arith;
  metadata = ground arith;
  key = ground arith;
}

scheduled :
    (p : Platform) (env : Env) (trace : Option String) (id : VideoId) (u : Task) (w end : World)
    → schedule_in_tx env trace (delete_video p id) none w ≡ (ok u, end)
    → (t : Task) × IsDeleteTask p id t × (end.db ≡ record w.db { tasks = w.db.tasks ++ t ∷ [] })
unfolding schedule_in_tx
scheduled p env trace id u w end e =
    let now = (env w.turn).now in
    let n = (env w.turn).uuid in
    let w' = record w { turn = w.turn + 1 } in
    let (t, built, rest) =
      bind-end (lift (build_pending_task now n trace (delete_video p id) none))
        (λ t. tx_statement env (λ _. Tasks.create t)) w' u end e in
    (t, built-IsDeleteTask p id now n trace t built, (created env t u w' end rest).1)

closure_end :
    (p : Platform) (env : Env) (trace : Option String) (id : VideoId) (w end : World)
    → failure_transaction p env trace id w ≡ (ok tt, end)
    → (t : Task) × IsDeleteTask p id t
      × (end.db ≡ record {
        videos =
            update_where
              (Videos.at_status id processing)
              (λ v. record v { status = failed })
              w.db.videos;
        tasks = w.db.tasks ++ t ∷ [];
      })
unfolding Videos.update_status_if
closure_end p env trace id w end e =
    let fail = λ (_ : Turn). Videos.update_status_if id processing failed in
    let (moved, updated, rest) =
      bind-end (tx_statement env fail)
        (λ _. schedule_in_tx env trace (delete_video p id) none >> pure tt) w tt end e in
    let w1 = (tx_statement env fail w).1 in
    let (_, new) = tx_statement-ok env fail w _ _ moved refl updated in
    let (u, stored, last) =
      bind-end (schedule_in_tx env trace (delete_video p id) none) (λ _. pure tt) w1 tt end rest in
    let (t, is_delete, db) =
      scheduled p env trace id u w1 _
        (ap (λ r. (r, (schedule_in_tx env trace (delete_video p id) none w1).1)) stored) in
    (
      t,
      is_delete,
      ap (λ x. x.1.db) (sym last)
          ∙ db
          ∙ ap (λ (d : Db). record d { tasks = d.tasks ++ t ∷ [] }) new,
    )

-- If `fail_and_schedule_delete` succeeds, then a video that was in processing has failed, and there is
-- one more task, a pending DeleteVideo task for the video: also if the video was not in processing, and
-- is left as it was, and also if the table has an active DeleteVideo task for it.
pub fail_and_schedule_delete-IsDeleteTask :
    (p : Platform) (env : Env) (trace : Option String) (id : VideoId) (w : World)
    → (fail_and_schedule_delete p env trace id w).0 ≡ ok tt
    → (t : Task) × IsDeleteTask p id t
      × ((fail_and_schedule_delete p env trace id w).1.db ≡ record {
        videos =
            update_where
              (Videos.at_status id processing)
              (λ v. record v { status = failed })
              (begun env w).db.videos;
        tasks = (begun env w).db.tasks ++ t ∷ [];
      })
unfolding fail_and_schedule_delete
fail_and_schedule_delete-IsDeleteTask p env trace id w e =
    let (ran, db) = run-ok env (failure_transaction p env trace id) w tt e in
    let closure = failure_transaction p env trace id (begun env w) in
    let (t, is_delete, new) =
      closure_end p env trace id (begun env w) closure.1 (ap (λ r. (r, closure.1)) ran) in
    (t, is_delete, db ∙ new)
