-- ===== src/System/Reaching/Cleanup.antt =====
-- The changes of crates/application/src/usecases/video/cleanup_stale_videos.rs as steps.
use benri_stream.Prelude.{
  ◌+◌, String, Option, none, List, [], ◌∷◌, ◌++◌, ◌≡◌, refl, subst, All, is_empty, pos, ◌*◌, ◌-ℤ◌,
}
use benri_stream.Platform.{Platform, ok}
use benri_stream.Video.{Video, VideoId, DateTime, uploaded, processing}
use benri_stream.Task.Types.{Task, from_secs}
use benri_stream.Task.Scheduler.{build_pending_task}
use benri_stream.Task.Metadata
use benri_stream.Db.Tables.{Db}
use benri_stream.Db.Videos
use benri_stream.Db.Tasks
use benri_stream.Effects.Ports.{Env, World, lift, pure, on_error, ◌>>=◌}
use benri_stream.Effects.Database.{statement}
use benri_stream.Effects.Answers.{bind-ok, map_err-ok, ok_injective}
use benri_stream.Effects.Keeps.{
  Keeps-pure, Keeps-if, Keeps-on_error, Keeps-bind_lift, Keeps-bind_ok, Keeps-bind, Keeps-then,
  Keeps-turn, Keeps-statement,
}
use benri_stream.UseCases.CleanupStaleVideos.{
  execute, sweep, build_delete_tasks, mark_stuck, create_tasks, collect_stuck_ids, db_error,
}
use benri_stream.System.{IsBuilt, Step}
use benri_stream.System.Reaching.{
  AreSteps, Stays, between, Stays-statement, build_pending_task-IsBuilt,
}

module _ (p : Platform) (env : Env) (trace : Option String) where
  build_delete_tasks-IsBuilt :
      (vs : List Video) (w : World) (ts : List Task)
      → (build_delete_tasks p env trace vs w).0 ≡ ok ts
      → All IsBuilt ts
  unfolding build_delete_tasks
  build_delete_tasks-IsBuilt [] w ts e = subst (All IsBuilt) (ok_injective (ok []) [] ts refl e) tt
  build_delete_tasks-IsBuilt (v ∷ vs) w ts e =
      let t = env w.turn in
      let w' = record w { turn = w.turn + 1 } in
      let built = build_pending_task t.now t.uuid trace (Metadata.delete_video p v.id) none in
      let (task, he, hr) =
        bind-ok (lift built)
          (λ task. build_delete_tasks p env trace vs >>= λ tasks. pure (task ∷ tasks)) w' ts e in
      let (tasks, hb, hp) =
        bind-ok (build_delete_tasks p env trace vs) (λ tasks. pure (task ∷ tasks)) w' ts hr in
      subst (All IsBuilt) (ok_injective (ok (task ∷ tasks)) (task ∷ tasks) ts refl hp) (
        build_pending_task-IsBuilt t.now t.uuid trace (Metadata.delete_video p v.id) none task he,
        build_delete_tasks-IsBuilt vs w' tasks hb,
      )

module _ (start_db : Db) (env : Env) (others : AreSteps env) (p : Platform)
    (trace : Option String) where
  build_delete_tasks-Stays :
      (vs : List Video) → Stays start_db env others (build_delete_tasks p env trace vs)
  unfolding build_delete_tasks
  build_delete_tasks-Stays [] = Keeps-pure []
  build_delete_tasks-Stays (v ∷ vs) = Keeps-bind _ _ (Keeps-turn env) (λ t.
      Keeps-bind_lift (build_pending_task t.now t.uuid trace (Metadata.delete_video p v.id) none) _
        (λ task e.
          Keeps-bind _ _ (build_delete_tasks-Stays vs) (λ tasks. Keeps-pure (task ∷ tasks))))

  mark_stuck-Stays : (ids : List VideoId) → Stays start_db env others (mark_stuck p env trace ids)
  mark_stuck-Stays ids = Keeps-if (is_empty ids) _ _ (Keeps-pure tt) (
      Keeps-on_error db_error _ (
        Stays-statement start_db env others
          (λ _. Videos.bulk_mark_failed ids (uploaded ∷ processing ∷ [])) (λ _ db. Step.sweep ids)))

  create_tasks-Stays :
      (ts : List Task) → All IsBuilt ts → Stays start_db env others (create_tasks p env trace ts)
  create_tasks-Stays ts built = Keeps-if (is_empty ts) _ _ (Keeps-pure tt) (
      Keeps-on_error db_error _ (
        Stays-statement start_db env others (λ _. Tasks.bulk_create ts)
          (λ _ db. Step.schedule_all ts built)))

  schedule_all-Stays :
      {B : Type 0} (vs : List Video) (rest : B)
      → Stays start_db env others (
          on_error db_error (build_delete_tasks p env trace vs) >>= λ tasks.
          create_tasks p env trace tasks >>= λ _. pure rest)
  schedule_all-Stays vs rest =
      Keeps-bind_ok _ _ (Keeps-on_error db_error _ (build_delete_tasks-Stays vs)) (λ tasks w e.
        Keeps-then _ _
          (create_tasks-Stays tasks
            (build_delete_tasks-IsBuilt p env trace vs w tasks (map_err-ok db_error _ tasks e)))
          (Keeps-pure rest))

  find_stale-Stays :
      (b : DateTime) → Stays start_db env others (statement env (λ _. Videos.find_stale b))
  find_stale-Stays b =
      Keeps-statement env _ (λ t db r. unfold Videos.find_stale in r) (between start_db env others)

  find_failed_before-Stays :
      (b : DateTime) → Stays start_db env others (statement env (λ _. Videos.find_failed_before b))
  find_failed_before-Stays b =
      Keeps-statement env _ (λ t db r. unfold Videos.find_failed_before in r)
        (between start_db env others)

  sweep-Stays : (threshold : DateTime) → Stays start_db env others (sweep p env trace threshold)
  unfolding sweep
  sweep-Stays threshold =
      Keeps-bind _ _ (Keeps-on_error db_error _ (find_stale-Stays threshold)) (λ stale.
        Keeps-bind _ _ (Keeps-on_error db_error _ (find_failed_before-Stays threshold))
          (λ failed_videos.
            Keeps-then _ _ (mark_stuck-Stays (collect_stuck_ids stale))
              (schedule_all-Stays (stale ++ failed_videos) _)))

  pub cleanup_stale-Stays : Stays start_db env others (execute p env trace)
  unfolding execute
  cleanup_stale-Stays =
      Keeps-bind _ _ (Keeps-turn env) (λ t. sweep-Stays (t.now -ℤ pos (from_secs (24 * 60 * 60))))
