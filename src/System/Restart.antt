-- ===== src/System/Restart.antt =====
-- Stale recovery against the processing timeouts of crates/domain/src/task/metadata.
use benri_stream.Prelude.{
  ℕ, suc, String, some, List, [], ◌∷◌, ◌≡◌, refl, true, arith, pos, ◌≤ℤ◌, ◌+ℤ◌, eqb_iff, +ℤ_parts,
  -ℤ_parts,
}
use benri_stream.Platform.{Platform}
use benri_stream.Video.{Video, DateTime, VideoId}
use benri_stream.Task.Status.{in_progress, pending}
use benri_stream.Task.Types.{Task}
use benri_stream.Task.Metadata.{process_video}
use benri_stream.Db.Tables.{after}
use benri_stream.Db.Tasks.{
  is_stale, reset_stale, find_pending, mark_in_progress, selected, keyed_dedup, sort_by_run,
  insert_sorted, distinct_on, is_eligible, is_blocked, stale_recovery_interval, reset_task,
  start_task,
}
use benri_stream.System.{claim}

stale_after_hour :
    (t : Task) (s now : DateTime)
    → t.status ≡ in_progress
    → t.started_at ≡ some s
    → s +ℤ pos (suc stale_recovery_interval) ≤ℤ now
    → is_stale now t ≡ true
unfolding is_stale
stale_after_hour t s now running hs late =
    rw (hs, running)
      (ground (
        arith,
        +ℤ_parts s (pos (suc stale_recovery_interval)),
        -ℤ_parts now (pos stale_recovery_interval),
      ))

claimed_alone :
    (t : Task) (k : String) (limit : ℕ) (now : DateTime) (vs : List Video)
    → t.status ≡ pending
    → t.ordering_key ≡ some k
    → t.next_run_at ≤ℤ now
    → (after (claim (suc limit) now) (record { videos = vs; tasks = t ∷ [] })).tasks
      ≡ start_task now t ∷ []
unfolding claim find_pending mark_in_progress selected keyed_dedup sort_by_run insert_sorted
    distinct_on is_eligible is_blocked
claimed_alone t k limit now vs s hk due = ground (arith, eqb_iff t.id t.id)

reset_alone :
    (t : Task) (now : DateTime) (vs : List Video)
    → is_stale now t ≡ true
    → after (reset_stale now) (record { videos = vs; tasks = t ∷ [] })
      ≡ record { videos = vs; tasks = reset_task now t ∷ [] }
unfolding reset_stale
reset_alone t now vs h = rw (h, after)

-- A ProcessVideo task that was put in progress at `s` and is alone in its table. When more than one hour has passed
-- since then and no more than its processing timeout, so that its handler may still run, stale
-- recovery and the poller's next round put it in progress once more, at the new time.
pub process_video_restarted :
    (p : Platform) (id : VideoId) (t : Task) (k : String) (s now : DateTime) (limit : ℕ)
    (vs : List Video)
    → t.status ≡ in_progress
    → t.started_at ≡ some s
    → t.ordering_key ≡ some k
    → t.next_run_at ≤ℤ now
    → s +ℤ pos (suc stale_recovery_interval) ≤ℤ now
    → now ≤ℤ s +ℤ pos (process_video p id).processing_timeout
    → (after
        (claim (suc limit) now)
        (after (reset_stale now) (record { videos = vs; tasks = t ∷ [] }))).tasks
      ≡ start_task now (reset_task now t) ∷ []
process_video_restarted p id t k s now limit vs running hs hk due late within =
    rw (reset_alone t now vs (stale_after_hour t s now running hs late))
      (claimed_alone (reset_task now t) k limit now vs refl hk due)
