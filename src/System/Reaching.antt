-- ===== src/System/Reaching.antt =====
-- The changes that the use cases of crates/application/src/usecases/video make to the tables, as
-- sequences of `Step`: process_video.
pub mod Requests
pub mod Cleanup
pub mod Workers
use benri_stream.Prelude.{
  ℕ, String, Option, none, some, List, [], ◌∷◌, ◌++◌, ◌≡◌, refl, subst, sym, Bool, true, false, not,
  arith, All, pos, is_empty, ◌-ℤ◌, if◌then◌else◌,
}
use benri_stream.Platform.{Platform, Result, ok, err}
use benri_stream.Video.{
  Video, VideoId, DateTime, VideoStatus, pending_upload, uploaded, processing, failed,
  storage_prefix,
}
use benri_stream.Task.Types.{Task, TaskMetadata}
use benri_stream.Task.Scheduler.{RepositoryError, build_pending_task}
use benri_stream.Task.Metadata
use benri_stream.Db.Tables.{Db, Stmt, after}
use benri_stream.Db.Videos
use benri_stream.Db.Videos.Lifecycle.{Moves}
use benri_stream.Db.Tasks
use benri_stream.Effects.Ports.{
  Env, World, Turn, M, lift, ◌>>=◌, TranscoderError, ProbeResult, StorageCall, deleted_object,
}
use benri_stream.Effects.Database.{turn, statement, tx_statement, run, storage_call}
use benri_stream.Effects.Keeps.{
  Keeps, Keeps-pure, Keeps-fail, Keeps-lift, Keeps-if, Keeps-on_error, Keeps-attempt,
  Keeps-bind_lift, Keeps-bind, Keeps-then, Keeps-turn, Keeps-storage_call, Keeps-tx_statement,
  Keeps-statement, Keeps-run,
}
use benri_stream.UseCases.Scheduling.{schedule_in_tx, schedule_standalone}
use benri_stream.UseCases.ProcessVideo
use benri_stream.System.{IsBuilt, Step, Reach, start, next}

-- What the other processes do between two calls is a sequence of steps.
abbrev pub AreSteps : Env → Type 0
AreSteps env = (n : ℕ) (db : Db) → Reach db ((env n).interfere db)

pub Reach-trans : {a b c : Db} → Reach a b → Reach b c → Reach a c
Reach-trans r start = r
Reach-trans r (next q s) = next (Reach-trans r q) s

build_pending_task-id :
    (now : DateTime) (n : ℕ) (trace : Option String) (m : TaskMetadata) (at : Option DateTime)
    (t : Task)
    → build_pending_task now n trace m at ≡ ok t
    → t.id ≡ n
unfolding build_pending_task
build_pending_task-id now n trace m at t e = ground arith

pub build_pending_task-IsBuilt :
    (now : DateTime) (n : ℕ) (trace : Option String) (m : TaskMetadata) (at : Option DateTime)
    (t : Task)
    → build_pending_task now n trace m at ≡ ok t
    → IsBuilt t
build_pending_task-IsBuilt now n trace m at t e = record {
  now = now;
  trace_id = trace;
  metadata = m;
  run_at = at;
  built =
      subst (λ k. build_pending_task now k trace m at ≡ ok t)
        (sym (build_pending_task-id now n trace m at t e)) e;
}

module _ (start_db : Db) (env : Env) (others : AreSteps env) where
  abbrev pub Stays : {E A : Type 0} → M E A → Type 0
  Stays m = Keeps (Reach start_db) m

  pub between : (n : ℕ) (db : Db) → Reach start_db db → Reach start_db ((env n).interfere db)
  between n db r = Reach-trans r (others n db)

  pub Stays-statement :
      {A : Type 0} (s : Turn → Stmt A)
      → ((t : Turn) (db : Db) → Step db (after (s t) db))
      → Stays (statement env s)
  Stays-statement s step = Keeps-statement env s (λ t db r. next r (step t db)) between

  Stays-tx_statement :
      {A : Type 0} (s : Turn → Stmt A)
      → ((t : Turn) (db : Db) → Step db (after (s t) db))
      → Stays (tx_statement env s)
  Stays-tx_statement s step = Keeps-tx_statement env s (λ t db r. next r (step t db))

  pub find_by_id-Stays : (id : VideoId) → Stays (statement env (λ _. Videos.find_by_id id))
  find_by_id-Stays id = Keeps-statement env _ (λ t db r. unfold Videos.find_by_id in r) between

  module _ (trace : Option String) (m : TaskMetadata) (at : Option DateTime) where
    pub schedule_in_tx-Stays : Stays (schedule_in_tx env trace m at)
    unfolding schedule_in_tx
    schedule_in_tx-Stays = Keeps-bind _ _ (Keeps-turn env) (λ t. Keeps-bind_lift _ _ (λ task e.
        Stays-tx_statement (λ _. Tasks.create task)
          (λ _ db. Step.schedule task (build_pending_task-IsBuilt t.now t.uuid trace m at task e))))

    pub schedule_standalone-Stays : Stays (schedule_standalone env trace m at)
    unfolding schedule_standalone
    schedule_standalone-Stays = Keeps-bind _ _ (Keeps-turn env) (λ t. Keeps-bind_lift _ _ (λ task e.
        Stays-statement (λ _. Tasks.create task)
          (λ _ db. Step.schedule task (build_pending_task-IsBuilt t.now t.uuid trace m at task e))))

  module _ (p : Platform) (trace : Option String) where
    fail_and_schedule_delete-Stays :
        (id : VideoId) → Stays (ProcessVideo.fail_and_schedule_delete p env trace id)
    unfolding ProcessVideo.fail_and_schedule_delete
    fail_and_schedule_delete-Stays id = Keeps-run env _ between (
        Keeps-then _ _
          (Stays-tx_statement (λ _. Videos.update_status_if id processing failed)
            (λ t db. Step.change_status id Moves.fail))
          (Keeps-then _ _ (schedule_in_tx-Stays trace (Metadata.delete_video p id) none)
            (Keeps-pure tt)))

    fail_video-Stays : (id : VideoId) → Stays (ProcessVideo.fail_video p env trace id)
    unfolding ProcessVideo.fail_video
    fail_video-Stays id =
        Keeps-then _ _ (Keeps-attempt _ (fail_and_schedule_delete-Stays id)) (Keeps-pure tt)

    finalize_by-Stays :
        (video : Video) (r : Result RepositoryError Bool)
        → Stays (ProcessVideo.finalize_by p env trace video r)
    unfolding ProcessVideo.cleanup_original_inline
    finalize_by-Stays video (ok true) =
        Keeps-then _ _ (Keeps-attempt _ (Keeps-storage_call env _)) (Keeps-pure tt)
    finalize_by-Stays video (ok false) = Keeps-pure tt
    finalize_by-Stays video (err e) = fail_video-Stays video.id

    early_publisher-Stays :
        (signal : Bool) (id : VideoId) (token : String)
        → Stays (ProcessVideo.early_publisher p env trace signal id token)
    unfolding ProcessVideo.early_publisher ProcessVideo.publish_share_token
    early_publisher-Stays signal id token = Keeps-if (not signal) _ _ (Keeps-pure tt) (
        Keeps-then _ _
          (Keeps-attempt _ (
            Stays-statement (λ _. Videos.set_share_token id token) (λ t db. Step.publish id token)))
          (Keeps-pure tt))

    end_by-Stays :
        (video : Video) (token : String) (r : Result TranscoderError (Unit {0}))
        → Stays (ProcessVideo.end_by p env trace video token r)
    unfolding ProcessVideo.finalize
    end_by-Stays video token (err e) = fail_video-Stays video.id
    end_by-Stays video token (ok done) =
        Keeps-bind _ _
          (Keeps-attempt _ (
            Stays-statement (λ _. Videos.mark_processed video.id token)
              (λ t db. Step.finish video.id token)))
          (finalize_by-Stays video)

    probed-Stays :
        (video : Video) (r : Result TranscoderError ProbeResult)
        → Stays (ProcessVideo.probed p env trace video r)
    unfolding ProcessVideo.transcode
    probed-Stays video (err e) = fail_video-Stays video.id
    probed-Stays video (ok probe) = Keeps-bind _ _ (Keeps-turn env) (λ t.
        Keeps-then _ _ (early_publisher-Stays t.first_segment video.id t.share_token) (
          end_by-Stays video t.share_token
            (t.transcoded video.upload_key (storage_prefix p video) probe)))

    pub process_video-Stays : (id : VideoId) → Stays (ProcessVideo.execute p env trace id)
    unfolding ProcessVideo.execute ProcessVideo.load_video ProcessVideo.claim_for_processing
    process_video-Stays id =
        Keeps-bind _ _
          (Keeps-bind _ _ (Keeps-on_error _ _ (find_by_id-Stays id)) (λ found. Keeps-lift _))
          (λ video.
            Keeps-bind _ _
              (Keeps-on_error _ _ (
                Stays-statement (λ _. Videos.update_status_if video.id uploaded processing)
                  (λ t db. Step.change_status video.id Moves.claim)))
              (λ claimed. Keeps-if (not claimed) _ _ (Keeps-pure tt) (
                Keeps-bind _ _ (Keeps-turn env)
                  (λ t. probed-Stays video (t.probe video.upload_key)))))
