-- ===== src/System/Invariant.antt =====
-- The database in the states that the system reaches.
use benri_stream.Prelude.{
  ℕ, String, true, false, some, List, [], ◌∷◌, ◌≡◌, ◌⊎◌, refl, arith, any, eqb, In,
}
use benri_stream.Video.{Video, VideoId, DateTime, VideoStatus, pending_upload}
use benri_stream.Task.Status.{in_progress}
use benri_stream.Task.Types.{Task, TaskUpdate}
use benri_stream.Db.Tables.{Db, after}
use benri_stream.Db.Videos
use benri_stream.Db.Videos.Tokens.{IsWellFormed, TokenFits, nil-IsWellFormed}
use benri_stream.Db.Videos.Lifecycle
use benri_stream.Db.Videos.Forms
use benri_stream.Db.Videos.Lifecycle.{Follows, Follows-self, can_become}
use benri_stream.Db.Tasks.{
  find_pending, mark_in_progress, batch_update, reset_stale, create, bulk_create,
}
use benri_stream.Db.Tasks.Exclusion.{IsConsistent}
use benri_stream.System.TaskSteps.{
  compute_update-idle, claim-IsConsistent, batch_update-IsConsistent, reset_stale-IsConsistent,
  bulk_create-IsConsistent, create-IsConsistent, dead_letter_outcome-idle,
}
use benri_stream.System.{empty_db, claim, Step, Reach, start, next}

-- A statement on one table leaves the other as it is.
module _ (db : Db) where
  insert-tasks : (v : Video) → (after (Videos.insert v) db).tasks ≡ db.tasks
  unfolding Videos.insert
  insert-tasks v = ground arith

  update_status_if-tasks :
      (id : VideoId) (s n : VideoStatus)
      → (after (Videos.update_status_if id s n) db).tasks ≡ db.tasks
  unfolding Videos.update_status_if
  update_status_if-tasks id s n = refl

  set_share_token-tasks :
      (id : VideoId) (token : String)
      → (after (Videos.set_share_token id token) db).tasks ≡ db.tasks
  unfolding Videos.set_share_token
  set_share_token-tasks id token = ground arith

  mark_processed-tasks :
      (id : VideoId) (token : String) → (after (Videos.mark_processed id token) db).tasks ≡ db.tasks
  unfolding Videos.mark_processed
  mark_processed-tasks id token = ground arith

  delete-tasks : (id : VideoId) → (after (Videos.delete id) db).tasks ≡ db.tasks
  unfolding Videos.delete
  delete-tasks id = refl

  bulk_mark_failed-tasks :
      (ids : List VideoId) (from : List VideoStatus)
      → (after (Videos.bulk_mark_failed ids from) db).tasks ≡ db.tasks
  unfolding Videos.bulk_mark_failed
  bulk_mark_failed-tasks [] from = refl
  bulk_mark_failed-tasks (id ∷ ids) from = refl

  claim-videos : (limit : ℕ) (now : DateTime) → (after (claim limit now) db).videos ≡ db.videos
  unfolding claim find_pending mark_in_progress
  claim-videos limit now = refl

  batch_update-videos : (us : List TaskUpdate) → (after (batch_update us) db).videos ≡ db.videos
  unfolding batch_update
  batch_update-videos us = refl

  reset_stale-videos : (now : DateTime) → (after (reset_stale now) db).videos ≡ db.videos
  unfolding reset_stale
  reset_stale-videos now = refl

  create-videos : (t : Task) → (after (create t) db).videos ≡ db.videos
  unfolding create
  create-videos t = ground arith

  bulk_create-videos : (ts : List Task) → (after (bulk_create ts) db).videos ≡ db.videos
  unfolding bulk_create
  bulk_create-videos [] = refl
  bulk_create-videos (t ∷ ts) = ground arith

pub record Invariant (db : Db) : Type 0 where
  pub videos : IsWellFormed db.videos
  pub tasks : IsConsistent db.tasks

Step-IsWellFormed : {db db' : Db} → Step db db' → IsWellFormed db.videos → IsWellFormed db'.videos
Step-IsWellFormed {db} (Step.initiate v s t) h = Forms.insert-IsWellFormed db h v s t
Step-IsWellFormed {db} (Step.change_status id m) h = Forms.update_status_if-IsWellFormed db h id m
Step-IsWellFormed {db} (Step.publish id token) h = Forms.set_share_token-IsWellFormed db h id token
Step-IsWellFormed {db} (Step.finish id token) h = Forms.mark_processed-IsWellFormed db h id token
Step-IsWellFormed {db} (Step.remove id) h = Forms.delete-IsWellFormed db h id
Step-IsWellFormed {db} (Step.sweep ids) h = Forms.bulk_mark_failed-IsWellFormed db h ids _
Step-IsWellFormed {db} (Step.poll limit now) h = rw (claim-videos db limit now) h
Step-IsWellFormed {db} (Step.persist t now m r) h = rw (batch_update-videos db _) h
Step-IsWellFormed {db} (Step.bury t now error) h = rw (batch_update-videos db _) h
Step-IsWellFormed {db} (Step.recover now) h = rw (reset_stale-videos db now) h
Step-IsWellFormed {db} (Step.schedule t b) h = rw (create-videos db t) h
Step-IsWellFormed {db} (Step.schedule_all ts b) h = rw (bulk_create-videos db ts) h

Step-IsConsistent : {db db' : Db} → Step db db' → IsConsistent db.tasks → IsConsistent db'.tasks
Step-IsConsistent {db} (Step.initiate v s t) c = rw (insert-tasks db v) c
Step-IsConsistent {db} (Step.change_status id m) c = rw (update_status_if-tasks db id _ _) c
Step-IsConsistent {db} (Step.publish id token) c = rw (set_share_token-tasks db id token) c
Step-IsConsistent {db} (Step.finish id token) c = rw (mark_processed-tasks db id token) c
Step-IsConsistent {db} (Step.remove id) c = rw (delete-tasks db id) c
Step-IsConsistent {db} (Step.sweep ids) c = rw (bulk_mark_failed-tasks db ids _) c
Step-IsConsistent {db} (Step.poll limit now) c = claim-IsConsistent limit now db c
Step-IsConsistent {db} (Step.persist t now m r) c =
    batch_update-IsConsistent _ db (compute_update-idle t now m r) c
Step-IsConsistent {db} (Step.bury t now error) c =
    batch_update-IsConsistent _ db (dead_letter_outcome-idle t now error) c
Step-IsConsistent {db} (Step.recover now) c = reset_stale-IsConsistent now db c
Step-IsConsistent {db} (Step.schedule t b) c = create-IsConsistent t db b c
Step-IsConsistent {db} (Step.schedule_all ts b) c = bulk_create-IsConsistent ts db b c

pub Reach-Invariant : {db db' : Db} → Reach db db' → Invariant db → Invariant db'
Reach-Invariant start h = h
Reach-Invariant (next r s) h =
    let before = Reach-Invariant r h in
    record { videos = Step-IsWellFormed s before.videos; tasks = Step-IsConsistent s before.tasks }

pub empty-Invariant : Invariant empty_db
empty-Invariant = record {
  videos = nil-IsWellFormed;
  tasks = record { unique = tt; exclusive = λ t u k i. elim i [ ] };
}

-- In every state that the system reaches from empty tables, no two rows of the table `tasks` that
-- are in progress and have different ids have the same ordering key.
pub Reach-IsExclusive :
    (db : Db)
    → Reach empty_db db
    → (t u : Task) (k : String) → In t db.tasks
    → In u db.tasks
    → t.status ≡ in_progress
    → u.status ≡ in_progress
    → t.ordering_key ≡ some k
    → u.ordering_key ≡ some k
    → t.id ≡ u.id
Reach-IsExclusive db r = (Reach-Invariant r empty-Invariant).tasks.exclusive

-- In every state that the system reaches from empty tables, a video that is not yet in processing
-- has no share token, and a processed video has one.
pub Reach-TokenFits :
    (db : Db) → Reach empty_db db → (v : Video) → In v db.videos → TokenFits v.status v.share_token
Reach-TokenFits db r = (Reach-Invariant r empty-Invariant).videos.formed

-- In every state that the system reaches from empty tables, two videos with the same share token
-- have the same id.
pub Reach-token_unique :
    (db : Db)
    → Reach empty_db db
    → (v u : Video) (token : String) → In v db.videos
    → In u db.videos
    → v.share_token ≡ some token
    → u.share_token ≡ some token
    → v.id ≡ u.id
Reach-token_unique db r = (Reach-Invariant r empty-Invariant).videos.unique

follows : (db db' : Db) → Step db db' → Follows db.videos db'.videos
follows db _ (Step.initiate v s t) = Lifecycle.insert-Follows db v s
follows db _ (Step.change_status id m) = Lifecycle.update_status_if-Follows db id m
follows db _ (Step.publish id token) = Lifecycle.set_share_token-Follows db id token
follows db _ (Step.finish id token) = Lifecycle.mark_processed-Follows db id token
follows db _ (Step.remove id) = Lifecycle.delete-Follows db id
follows db _ (Step.sweep ids) = Lifecycle.bulk_mark_failed-Follows db ids
follows db _ (Step.poll limit now) = rw (claim-videos db limit now) (Follows-self db.videos)
follows db _ (Step.persist t now m r) = rw (batch_update-videos db _) (Follows-self db.videos)
follows db _ (Step.bury t now error) = rw (batch_update-videos db _) (Follows-self db.videos)
follows db _ (Step.recover now) = rw (reset_stale-videos db now) (Follows-self db.videos)
follows db _ (Step.schedule t b) = rw (create-videos db t) (Follows-self db.videos)
follows db _ (Step.schedule_all ts b) = rw (bulk_create-videos db ts) (Follows-self db.videos)

-- After any statement, each row of the table `videos` was there before, with the same id and in the
-- same state or in one that leads to its state in one move, or it waits for its upload and no row
-- had its id. The moves are PENDING_UPLOAD to UPLOADED, UPLOADED to PROCESSING or FAILED, and
-- PROCESSING to PROCESSED or FAILED; PROCESSED and FAILED are final.
pub Step-can_become :
    (db db' : Db)
    → Step db db'
    → (v : Video) → In v db'.videos
    → (v.status ≡ pending_upload) × (any (λ u. eqb u.id v.id) db.videos ≡ false)
      ⊎ ((u : Video) × In u db.videos × (v.id ≡ u.id) × (can_become u.status v.status ≡ true))
Step-can_become db db' s = follows db db' s
