-- ===== src/Worker/Periodic/Polls.antt =====
-- What a round of the poller of crates/worker/src/poller.rs publishes.
use benri_stream.Prelude.{
  ◌+◌, true, List, [], ◌∷◌, ◌++◌, ◌≡◌, refl, sym, ap, subst, ◌∙◌, arith, map, is_empty, take,
  if◌then◌else◌, Bool-cases, inl, inr,
}
use mathlib.Core.List.{append-nil}
use benri_stream.Platform.{Result, ok, err}
use benri_stream.Task.Types.{Task, TaskId}
use benri_stream.Video.{DateTime}
use benri_stream.Db.Tables.{Stmt}
use benri_stream.Db.Tasks
use benri_stream.Db.Tasks.Order.{IsBatch, find_pending-IsBatch}
use benri_stream.Effects.Ports.{
  Env, World, Turn, on_error, ◌>>◌, pure, QueueError, show_repository_error, show_queue_error,
}
use benri_stream.Effects.Database.{statement}
use benri_stream.Effects.Answers.{bind-end, map_err-ok}
use benri_stream.Effects.Frames.{statement-rest, statement-ok}
use benri_stream.Worker.Periodic.{batch_size, pushed, publish, do_poll}

module _ (env : Env) (ids : List TaskId) where
  pushed-queue :
      (r : Result QueueError (Unit {0})) (w : World) (u : Unit {0})
      → (pushed env ids r w).0 ≡ ok u
      → (pushed env ids r w).1.queue ≡ w.queue ++ ids
  pushed-queue (ok done) w u e = refl
  pushed-queue (err x) w u e = absurd (ground arith)

  publish-queue :
      (w : World) (u : Unit {0})
      → (publish env ids w).0 ≡ ok u
      → (publish env ids w).1.queue ≡ w.queue ++ ids
  unfolding publish
  publish-queue w u e = pushed-queue (env w.turn).published (record w { turn = w.turn + 1 }) u e

no_ids : (q : List TaskId) (rows : List Task) → is_empty rows ≡ true → q ≡ q ++ map (λ r. r.id) rows
no_ids q [] e = sym (append-nil q)
no_ids q (r ∷ rows) e = absurd (ground arith)

-- From the rows on.
round-queue :
    (env : Env) (rows : List Task) (now : DateTime) (w end : World)
    → (if is_empty rows
          then pure tt
          else (on_error show_repository_error
                (statement env (λ _. Tasks.mark_in_progress (map (λ r. r.id) rows) now))
              >> on_error show_queue_error (publish env (map (λ r. r.id) rows))))
        w
      ≡ (ok tt, end)
    → end.queue ≡ w.queue ++ map (λ r. r.id) rows
round-queue env rows now w end e = elim (Bool-cases (is_empty rows)) [
  | inl none_due ↦ ap (λ x. x.1.queue) (sym (rw none_due at e)) ∙ no_ids w.queue rows none_due
  | inr some_due ↦
      let ids = map (λ r. r.id) rows in
      let mark = statement env (λ _. Tasks.mark_in_progress ids now) in
      let (u, marked, rest) =
        bind-end (on_error show_repository_error mark) _ w tt end (rw some_due at e) in
      let w2 = (mark w).1 in
      ap (λ x. x.1.queue) (sym rest)
      ∙ publish-queue env ids w2 tt
          (map_err-ok show_queue_error (publish env ids w2).0 tt (ap (λ x. x.0) rest))
      ∙ ap (λ q. q ++ ids) (statement-rest env (λ _. Tasks.mark_in_progress ids now) w).1
]

-- If a round succeeds, then what it added to the queue is exactly a batch of `find_pending`, in its
-- order: at most 100 tasks that were pending, due and not blocked, one for each ordering key.
pub do_poll-IsBatch :
    (env : Env) (w end : World)
    → do_poll env w ≡ (ok tt, end)
    → (rows : List Task) × IsBatch 100
        (env w.turn).now
        ((env (w.turn + 1)).interfere w.db).tasks
        rows
      × (end.queue ≡ w.queue ++ map (λ r. r.id) rows)
unfolding do_poll Tasks.find_pending
do_poll-IsBatch env w end e =
    let t = env w.turn in
    let w1 = record w { turn = w.turn + 1 } in
    let db = (env (w.turn + 1)).interfere w.db in
    let find : Turn → Stmt (List Task) = λ _. Tasks.find_pending batch_size t.now in
    let (rows, found, e1) =
      bind-end (on_error show_repository_error (statement env find)) _ w1 tt end e in
    let picked = take batch_size (Tasks.sort_by_run (Tasks.selected db.tasks t.now)) in
    let (same, _) =
      statement-ok env find w1 picked db rows refl
        (map_err-ok show_repository_error _ rows found) in
    (
      rows,
      subst (IsBatch batch_size t.now db.tasks) (sym same)
          (find_pending-IsBatch batch_size t.now db picked refl),
      round-queue env rows t.now (statement env find w1).1 end e1
          ∙ ap (λ q. q ++ map (λ r. r.id) rows) (statement-rest env find w1).1,
    )
