-- ===== src/System.antt =====
-- Every statement that the processes of the system make on the database, in any order: the api, the
-- use cases, the poller, the consumers, stale recovery and the system task checker. A transaction
-- that commits is the sequence of its statements, and one that is rolled back is none.
mod TaskSteps
pub mod Invariant
pub mod Restart
pub mod Reaching
use benri_stream.Prelude.{ℕ, String, Option, none, List, [], ◌∷◌, ◌≡◌, map, All}
use benri_stream.Platform.{Result, ok, err}
use benri_stream.Video.{Video, VideoId, DateTime, VideoStatus, pending_upload, uploaded, processing}
use benri_stream.Task.Types.{Task, TaskId, TaskMetadata, TaskResult}
use benri_stream.Task.Update.{compute_update}
use benri_stream.Task.Scheduler.{build_pending_task}
use benri_stream.Db.Tables.{Db, Stmt, after}
use benri_stream.Db.Videos
use benri_stream.Db.Videos.Lifecycle.{Moves}
use benri_stream.Db.Tasks
use benri_stream.Worker.Handlers.{dead_letter_outcome}

abbrev pub empty_db : Db
empty_db = record { videos = []; tasks = [] }

-- The two statements of `do_poll`. The poller's lock keeps other pollers from coming between them.
unfoldable pub claim : ℕ → DateTime → Stmt (Unit {0})
claim limit now db = elim (Tasks.find_pending limit now db) [
  | ok (rows, db') ↦ Tasks.mark_in_progress (map (λ r. r.id) rows) now db'
  | err e ↦ err e
]

-- A task that `build_pending_task` builds.
pub record IsBuilt (t : Task) : Type 0 where
  pub now : DateTime
  pub trace_id : Option String
  pub metadata : TaskMetadata
  pub run_at : Option DateTime
  pub built : build_pending_task now t.id trace_id metadata run_at ≡ ok t

pub data Step (db : Db) : Db → Type 0 where
  initiate :
      (v : Video)
      → v.status ≡ pending_upload
      → v.share_token ≡ none
      → Step db (after (Videos.insert v) db)
  change_status :
      (id : VideoId) {s n : VideoStatus}
      → Moves s n
      → Step db (after (Videos.update_status_if id s n) db)
  publish : (id : VideoId) (token : String) → Step db (after (Videos.set_share_token id token) db)
  finish : (id : VideoId) (token : String) → Step db (after (Videos.mark_processed id token) db)
  remove : (id : VideoId) → Step db (after (Videos.delete id) db)
  sweep :
      (ids : List VideoId)
      → Step db (after (Videos.bulk_mark_failed ids (uploaded ∷ processing ∷ [])) db)
  poll : (limit : ℕ) (now : DateTime) → Step db (after (claim limit now) db)
  persist :
      (t : Task) (now : DateTime) (m : TaskMetadata) (r : TaskResult)
      → Step db (after (Tasks.batch_update ((compute_update t now m r).update ∷ [])) db)
  bury :
      (t : Task) (now : DateTime) (error : String)
      → Step db (after (Tasks.batch_update ((dead_letter_outcome t now error).update ∷ [])) db)
  recover : (now : DateTime) → Step db (after (Tasks.reset_stale now) db)
  schedule : (t : Task) → IsBuilt t → Step db (after (Tasks.create t) db)
  schedule_all : (ts : List Task) → All IsBuilt ts → Step db (after (Tasks.bulk_create ts) db)

pub data Reach (db : Db) : Db → Type 0 where
  start : Reach db db
  next : {db' db'' : Db} → Reach db db' → Step db' db'' → Reach db db''
