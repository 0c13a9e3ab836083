-- ===== src/UseCases/CompleteUpload/Atomic.antt =====
-- `transition_to_uploaded` of crates/application/src/usecases/video/complete_upload.rs: the status
-- and the task.
use benri_stream.Prelude.{
  ◌+◌, String, Bool, true, false, Option, none, some, List, [], ◌∷◌, ◌++◌, ◌≡◌, refl, ap, ◌∙◌, ◌⊎◌,
  inl, inr, arith, any, update_where, concat,
}
use benri_stream.Platform.{Platform, Result, ok, err}
use benri_stream.Video.{Video, VideoId, pending_upload, uploaded}
use benri_stream.Task.Status.{pending}
use benri_stream.Task.Types.{Task}
use benri_stream.Task.Metadata.{process_video, process_video_type}
use benri_stream.Task.Scheduler.{build_pending_task, pending_task}
use benri_stream.Db.Tables.{Db}
use benri_stream.Db.Videos.{at_status, update_status_if}
use benri_stream.Db.Tasks.{create, too_long}
use benri_stream.Effects.Ports.{Env, World}
use benri_stream.Effects.Database.{tx_statement, run}
use benri_stream.Effects.Transactions.{begun, run-ok, run_atomic}
use benri_stream.UseCases.Scheduling.{schedule_in_tx}
use benri_stream.UseCases.CompleteUpload.{Error, upload_transaction, transition_to_uploaded}

-- A pending ProcessVideo task for the video, under the video's ordering key.
pub record IsProcessTask (p : Platform) (id : VideoId) (t : Task) : Type 0 where
  pub type : t.metadata_type ≡ process_video_type
  pub status : t.status ≡ pending
  pub metadata : p.video_id_to_value id ≡ ok t.metadata
  pub key : t.ordering_key ≡ some (concat ("video_process:" ∷ p.show_uuid id ∷ []))

-- The video waited for its upload in `before`; in `after` it is uploaded, and there is one more task.
pub record IsUploaded (p : Platform) (id : VideoId) (before after : Db) : Type 0 where
  pub waited : any (at_status id pending_upload) before.videos ≡ true
  pub videos :
      after.videos
      ≡ update_where
          (at_status id pending_upload)
          (λ v. record v { status = uploaded })
          before.videos
  pub task : Task
  pub is_process : IsProcessTask p id task
  pub tasks : after.tasks ≡ before.tasks ++ task ∷ []

-- What each answer of `transition_to_uploaded` says of the tables before and after.
abbrev pub TransitionOutcome : Platform → VideoId → Db → Db → Result Error Bool → Type 0
TransitionOutcome p id before after (ok true) = IsUploaded p id before after
TransitionOutcome p id before after (ok false) =
    (any (at_status id pending_upload) before.videos ≡ false) × (after ≡ before)
TransitionOutcome p id before after (err e) = (after ≡ before) ⊎ IsUploaded p id before after

update_where_none :
    (test : Video → Bool) (change : Video → Video) (vs : List Video)
    → any test vs ≡ false
    → update_where test change vs ≡ vs
update_where_none test change [] h = refl
update_where_none test change (v ∷ vs) h = ground (arith, update_where_none test change vs)

module _ (p : Platform) (env : Env) (trace : Option String) (id : VideoId) (w : World) where
  closure-false :
      (upload_transaction p env trace id w).0 ≡ ok false
      → (any (at_status id pending_upload) w.db.videos ≡ false)
        × ((upload_transaction p env trace id w).1.db ≡ w.db)
  unfolding tx_statement update_status_if schedule_in_tx build_pending_task create
  closure-false e = ground (
    arith,
    update_where_none (at_status id pending_upload) (λ v. record v { status = uploaded })
        w.db.videos,
  )

  closure-json :
      (upload_transaction p env trace id w).0 ≡ ok true
      → (json : String) × (p.video_id_to_value id ≡ ok json)
  unfolding tx_statement update_status_if schedule_in_tx build_pending_task create process_video
  closure-json e = ground arith

  closure-fits : (upload_transaction p env trace id w).0 ≡ ok true → too_long trace ≡ false
  unfolding tx_statement update_status_if schedule_in_tx build_pending_task create process_video
  closure-fits e = ground arith

  closure-true :
      (json : String)
      → p.video_id_to_value id ≡ ok json
      → (upload_transaction p env trace id w).0 ≡ ok true
      → (any (at_status id pending_upload) w.db.videos ≡ true)
        × ((upload_transaction p env trace id w).1.db ≡ record {
          videos =
              update_where
                (at_status id pending_upload)
                (λ v. record v { status = uploaded })
                w.db.videos;
          tasks =
              w.db.tasks
              ++ pending_task
                  (env (w.turn + 1)).now
                  (env (w.turn + 1)).uuid
                  trace
                  (process_video p id)
                  none
                  json
                ∷ [];
        })
  unfolding tx_statement update_status_if schedule_in_tx build_pending_task create process_video
  closure-true json j e = ground arith

  closure-IsUploaded :
      (upload_transaction p env trace id w).0 ≡ ok true
      → IsUploaded p id w.db (upload_transaction p env trace id w).1.db
  closure-IsUploaded e =
      let (json, j) = closure-json e in
      let (waited, db) = closure-true json j e in
      record {
        waited = waited;
        videos = ap (λ (d : Db). d.videos) db;
        task =
            pending_task (env (w.turn + 1)).now (env (w.turn + 1)).uuid trace (process_video p id)
              none json;
        is_process =
            unfold process_video in record { type = refl; status = refl; metadata = j; key = refl };
        tasks = ap (λ (d : Db). d.tasks) db;
      }

module _ (p : Platform) (env : Env) (trace : Option String) (id : VideoId) (w : World) where
  transition_ok :
      (b : Bool)
      → (transition_to_uploaded p env trace id w).0 ≡ ok b
      → (run env (upload_transaction p env trace id) w).0 ≡ ok b
  unfolding transition_to_uploaded
  transition_ok b e = ground arith

  transition-db :
      (transition_to_uploaded p env trace id w).1.db
      ≡ (run env (upload_transaction p env trace id) w).1.db
  unfolding transition_to_uploaded
  transition-db = refl

  transition_true :
      (transition_to_uploaded p env trace id w).0 ≡ ok true
      → IsUploaded p id (begun env w).db (transition_to_uploaded p env trace id w).1.db
  transition_true e =
      let (ran, db) =
        run-ok env (upload_transaction p env trace id) w true (transition_ok true e) in
      rw (transition-db ∙ db) (closure-IsUploaded p env trace id (begun env w) ran)

  pub transition-fits :
      (transition_to_uploaded p env trace id w).0 ≡ ok true → too_long trace ≡ false
  transition-fits e =
      closure-fits p env trace id (begun env w)
        (run-ok env (upload_transaction p env trace id) w true (transition_ok true e)).0

  transition_false :
      (transition_to_uploaded p env trace id w).0 ≡ ok false
      → (any (at_status id pending_upload) (begun env w).db.videos ≡ false)
        × ((transition_to_uploaded p env trace id w).1.db ≡ (begun env w).db)
  transition_false e =
      let (ran, db) =
        run-ok env (upload_transaction p env trace id) w false (transition_ok false e) in
      let (missing, same) = closure-false p env trace id (begun env w) ran in
      (missing, transition-db ∙ db ∙ same)

  transition_any :
      ((transition_to_uploaded p env trace id w).1.db ≡ (begun env w).db)
      ⊎ IsUploaded p id (begun env w).db (transition_to_uploaded p env trace id w).1.db
  transition_any = elim (run_atomic env (upload_transaction p env trace id) w) [
    | inl same ↦ inl (transition-db ∙ same)
    | inr (true, ran, db) ↦
        inr (rw (transition-db ∙ db) (closure-IsUploaded p env trace id (begun env w) ran))
    | inr (false, ran, db) ↦
        inl (transition-db ∙ db ∙ (closure-false p env trace id (begun env w) ran).1)
  ]

  -- Under a trace id that is too long for the column, the tables stay as they are.
  pub transition_too_long :
      too_long trace ≡ true → (transition_to_uploaded p env trace id w).1.db ≡ (begun env w).db
  transition_too_long long = elim (run_atomic env (upload_transaction p env trace id) w) [
    | inl same ↦ transition-db ∙ same
    | inr (true, ran, db) ↦ absurd (cc (closure-fits p env trace id (begun env w) ran))
    | inr (false, ran, db) ↦ transition-db ∙ db ∙ (closure-false p env trace id (begun env w) ran).1
  ]

  by_result :
      (r : Result Error Bool)
      → (transition_to_uploaded p env trace id w).0 ≡ r
      → TransitionOutcome p id (begun env w).db (transition_to_uploaded p env trace id w).1.db r
  by_result (ok true) e = transition_true e
  by_result (ok false) e = transition_false e
  by_result (err x) e = transition_any

  -- Whatever other processes do and whichever call fails: if `transition_to_uploaded` answers true,
  -- the video waited for its upload at the start of the transaction, is uploaded now, and exactly
  -- one task is new, a pending ProcessVideo task for it. If it answers false, the video did not wait
  -- and nothing is changed. If it fails, the tables are in one of these two states: never the status
  -- without the task, or the task without the status.
  pub transition_to_uploaded_atomic :
      TransitionOutcome p id
        (begun env w).db
        (transition_to_uploaded p env trace id w).1.db
        (transition_to_uploaded p env trace id w).0
  transition_to_uploaded_atomic = by_result (transition_to_uploaded p env trace id w).0 refl
