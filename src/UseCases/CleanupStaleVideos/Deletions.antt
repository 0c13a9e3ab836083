-- ===== src/UseCases/CleanupStaleVideos/Deletions.antt =====
-- The batch that `build_delete_tasks` of
-- crates/application/src/usecases/video/cleanup_stale_videos.rs builds.
use benri_stream.Prelude.{
  ◌+◌, String, Option, none, some, List, [], ◌∷◌, ◌≡◌, refl, sym, ap, ◌∙◌, arith, map, concat,
}
use benri_stream.Platform.{Platform, ok}
use benri_stream.Video.{Video, DateTime}
use benri_stream.Task.Types.{Task, TaskId}
use benri_stream.Task.Metadata.{delete_video}
use benri_stream.Task.Scheduler.{build_pending_task}
use benri_stream.Effects.Ports.{Env, World, lift, pure, ◌>>=◌}
use benri_stream.Effects.Answers.{bind-ok, ok_injective}
use benri_stream.UseCases.CleanupStaleVideos.{build_delete_tasks}

module _ (p : Platform) where
  abbrev pub delete_key : Video → Option String
  delete_key v = some (concat ("video_delete:" ∷ p.show_uuid v.id ∷ []))

  built-key :
      (now : DateTime) (id : TaskId) (trace : Option String) (v : Video) (t : Task)
      → build_pending_task now id trace (delete_video p v.id) none ≡ ok t
      → t.ordering_key ≡ delete_key v
  unfolding build_pending_task delete_video
  built-key now id trace v t e = ground arith

-- If the batch is built, it has one task for each video, in their order, under the ordering key of
-- that video's deletion.
pub build_delete_tasks-keys :
    (p : Platform) (env : Env) (trace : Option String) (vs : List Video) (w : World)
    (ts : List Task)
    → (build_delete_tasks p env trace vs w).0 ≡ ok ts
    → map (λ t. t.ordering_key) ts ≡ map (delete_key p) vs
unfolding build_delete_tasks
build_delete_tasks-keys p env trace [] w ts e =
    ap (map (λ t. t.ordering_key)) (sym (ok_injective (ok []) [] ts refl e))
build_delete_tasks-keys p env trace (v ∷ vs) w ts e =
    let t = env w.turn in
    let w' = record w { turn = w.turn + 1 } in
    let built = build_pending_task t.now t.uuid trace (delete_video p v.id) none in
    let (task, he, hr) =
      bind-ok (lift built)
        (λ task. build_delete_tasks p env trace vs >>= λ tasks. pure (task ∷ tasks)) w' ts e in
    let (tasks, hb, hp) =
      bind-ok (build_delete_tasks p env trace vs) (λ tasks. pure (task ∷ tasks)) w' ts hr in
    let rest = build_delete_tasks-keys p env trace vs w' tasks hb in
    ap (map (λ t. t.ordering_key))
      (sym (ok_injective (ok (task ∷ tasks)) (task ∷ tasks) ts refl hp))
    ∙ (rw (built-key p t.now t.uuid trace v task he) (ap (λ ks. delete_key p v ∷ ks) rest))
