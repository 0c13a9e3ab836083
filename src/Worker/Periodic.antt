-- ===== src/Worker/Periodic.antt =====
-- One round of each periodic loop: crates/worker/src/poller.rs, recovery.rs and system_checker.rs.
pub mod Polls
use benri_stream.Prelude.{
  ℕ, ◌+◌, String, Option, none, some, List, [], ◌∷◌, ◌++◌, map, is_empty, if◌then◌else◌, ltb,
}
use benri_stream.Platform.{Platform, Result, ok, err}
use benri_stream.Task.Types.{TaskId, TaskMetadata}
use benri_stream.Task.Metadata.{cleanup_stale_videos, cleanup_stale_videos_type}
use benri_stream.Db.Tasks
use benri_stream.Effects.Ports.{
  Env, World, M, pure, lift, on_error, ◌>>=◌, ◌>>◌, show_repository_error, show_lock_error,
  show_queue_error, QueueError,
}
use benri_stream.Effects.Database.{turn, statement}
use benri_stream.UseCases.Scheduling.{schedule_standalone}

abbrev poller_lock_key : String
poller_lock_key = "benri:task:poller:lock"

abbrev recovery_lock_key : String
recovery_lock_key = "benri:task:recovery:lock"

abbrev checker_lock_key : String
checker_lock_key = "benri:task:system_checker:lock"

abbrev pub batch_size : ℕ
batch_size = 100

module _ (env : Env) where
  -- A release is made whatever the work answered, and its own failure is ignored.
  abbrev pub release : {E A : Type 0} → String → Result E A × World → Result E A × World
  release key (r, w) = (r, record w { turn = w.turn + 1; released = w.released ++ key ∷ [] })

  -- What the three loops do with their lock: nothing without it.
  unfoldable pub with_lock : String → ℕ → M String (Unit {0}) → M String (Unit {0})
  with_lock key ttl_secs work = do
    t ← turn env
    token ← on_error show_lock_error (lift (t.acquired key ttl_secs))
    elim token [ none ↦ pure tt | some held ↦ λ w. release key (work w) ]

  abbrev pub pushed : List TaskId → Result QueueError (Unit {0}) → M QueueError (Unit {0})
  pushed ids (ok done) w = (ok tt, record w { queue = w.queue ++ ids })
  pushed ids (err e) w = (err e, w)

  unfoldable pub publish : List TaskId → M QueueError (Unit {0})
  publish ids = do t ← turn env; pushed ids t.published

  unfoldable pub do_poll : M String (Unit {0})
  do_poll = do
    t ← turn env
    rows ← on_error show_repository_error (statement env (λ _. Tasks.find_pending batch_size t.now))
    let ids = map (λ r. r.id) rows
    if is_empty rows
        then pure tt
        else (on_error show_repository_error (statement env (λ _. Tasks.mark_in_progress ids t.now))
            >> on_error show_queue_error (publish ids))

  unfoldable pub poll_once : M String (Unit {0})
  poll_once = with_lock poller_lock_key 30 do_poll

  unfoldable pub recover_once : M String (Unit {0})
  recover_once =
      with_lock recovery_lock_key 30
        do on_error show_repository_error (statement env (λ t. Tasks.reset_stale t.now)); pure tt

  module _ (p : Platform) (trace : Option String) where
    unfoldable pub ensure_active : String → TaskMetadata → M String (Unit {0})
    ensure_active metadata_type metadata = do
      active ←
          on_error show_repository_error
            (statement env (λ _. Tasks.count_active_by_type metadata_type))
      if ltb 0 active then pure tt else (do
        on_error show_repository_error (schedule_standalone env trace metadata none)
        pure tt)

    unfoldable pub check_once : M String (Unit {0})
    check_once =
        with_lock checker_lock_key 60
          (ensure_active cleanup_stale_videos_type (cleanup_stale_videos p))
