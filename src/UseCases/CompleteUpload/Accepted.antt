-- ===== src/UseCases/CompleteUpload/Accepted.antt =====
-- The checks of `execute` of crates/application/src/usecases/video/complete_upload.rs.
use benri_stream.Prelude.{
  ℕ, ◌+◌, String, Bool, true, false, not, Option, some, List, ◌≡◌, ◌≢◌, refl, sym, ap, subst, ◌-◌,
  ◌≤ℤ◌, arith, find, eqb, if◌then◌else◌, ltb_ℤ, Bool-cases, inl, inr, ◌∙◌,
}
use benri_stream.Platform.{Platform, ok, ok_or}
use benri_stream.Video.{Video, VideoId, pending_upload, uploaded, status_eq, max_upload_size_bytes}
use benri_stream.Video.Format
use benri_stream.Video.Status
use benri_stream.Db.Tables.{Db}
use benri_stream.Db.Videos
use benri_stream.Db.Tasks.{too_long}
use benri_stream.Effects.Ports.{
  Env, World, Fault, no_fault, lost_request, lost_reply, ObjectMetadata, lift, fail, pure, on_error,
}
use benri_stream.Effects.Database.{statement, settle}
use benri_stream.Effects.Frames.{found-find}
use benri_stream.Effects.Transactions.{begun}
use benri_stream.Effects.Answers.{bind-end, map_err-ok, ok_injective, ok_or-some}
use benri_stream.UseCases.CompleteUpload.{
  Output, video_not_found, already_completed, file_not_found_in_storage, execute, check_upload,
  after_size, check_signature, after_signature, transition_to_uploaded,
  schedule_delete_after_rejection, storage_err_to_use_case_err, file_signature_read_bytes, db_error,
}
use benri_stream.UseCases.CompleteUpload.Atomic.{
  IsUploaded, TransitionOutcome, transition_to_uploaded_atomic, transition-fits,
}

-- What the calls from `start` on said: the size was asked for first and is small enough, the bytes that
-- were read next begin a file of the video's format, and the transaction of the third call, which began
-- on the tables as the other processes had left them, changed the video and its task together. The
-- trace id fits its column, and the answer is about the video.
pub record IsAccepted (p : Platform) (env : Env) (trace : Option String) (video : Video)
    (start : World) (out : Output) (end : World) : Type 0 where
  pub object_meta : ObjectMetadata
  pub head : (env start.turn).head_object video.upload_key ≡ ok (some object_meta)
  pub small : object_meta.size_bytes ≤ℤ max_upload_size_bytes
  pub header_bytes : List ℕ
  pub read : (env (start.turn + 1)).read_range video.upload_key 0 15 ≡ ok header_bytes
  pub signed : Format.validate_signature video.format header_bytes ≡ true
  pub fits : too_long trace ≡ false
  pub changed : IsUploaded p video.id ((env (start.turn + 1 + 1)).interfere start.db) end.db
  pub answer : out ≡ record { id = video.id; status = Status.uploaded }

module _ (p : Platform) (env : Env) (trace : Option String) (video : Video) (out : Output)
    (end : World) where
  transition_end :
      (transitioned : Bool) (v : World)
      → (if not transitioned
            then fail already_completed
            else pure (record { id = video.id; status = Status.uploaded }))
          v
        ≡ (ok out, end)
      → (transitioned ≡ true)
        × (out ≡ record { id = video.id; status = Status.uploaded })
        × (v ≡ end)
  transition_end true v e =
      (refl, sym (ok_injective (ok _) _ out refl (ap (λ r. r.0) e)), ap (λ r. r.1) e)
  transition_end false v e = absurd (ground arith)

  signature_end :
      (header_bytes : List ℕ) (v : World)
      → after_signature p env trace video header_bytes v ≡ (ok out, end)
      → (Format.validate_signature video.format header_bytes ≡ true)
        × (out ≡ record { id = video.id; status = Status.uploaded })
        × IsUploaded p video.id (begun env v).db end.db
        × (too_long trace ≡ false)
  unfolding after_signature
  signature_end header_bytes v e =
      elim (Bool-cases (Format.validate_signature video.format header_bytes)) [
        | inl good ↦
            let (moved, ran, rest) =
              bind-end (transition_to_uploaded p env trace video.id) _ v out end (rw good at e) in
            let (is_true, answer, same) = transition_end moved _ rest in
            (
              good,
              answer,
              subst (λ x. IsUploaded p video.id (begun env v).db x.db) same
                  (subst (TransitionOutcome p video.id (begun env v).db _) (ran ∙ ap ok is_true)
                    (transition_to_uploaded_atomic p env trace video.id v)),
              transition-fits p env trace video.id v (ran ∙ ap ok is_true),
            )
        | inr bad ↦
            let (_, _, failed) =
              bind-end (schedule_delete_after_rejection p env trace video.id) _ v out end
                (rw bad at e) in
            absurd (ground (arith, failed))
      ]

  check_signature_end :
      (object_meta : ObjectMetadata) (start : World)
      → (env start.turn).head_object video.upload_key ≡ ok (some object_meta)
      → object_meta.size_bytes ≤ℤ max_upload_size_bytes
      → check_signature p env trace video (record start { turn = start.turn + 1 }) ≡ (ok out, end)
      → IsAccepted p env trace video start out end
  unfolding check_signature
  check_signature_end object_meta start head small e =
      let v = record start { turn = start.turn + 1 } in
      let t = env v.turn in
      let v' = record v { turn = v.turn + 1 } in
      let (header_bytes, read, rest) =
        bind-end
          (on_error storage_err_to_use_case_err
            (lift (t.read_range video.upload_key 0 (file_signature_read_bytes - 1))))
          (after_signature p env trace video) v' out end e in
      let (signed, answer, changed, fits) = signature_end header_bytes v' rest in
      record {
        object_meta = object_meta;
        head = head;
        small = small;
        header_bytes = header_bytes;
        read = map_err-ok storage_err_to_use_case_err _ header_bytes read;
        signed = signed;
        fits = fits;
        changed = changed;
        answer = answer;
      }

  size_end :
      (object_meta : ObjectMetadata) (start : World)
      → (env start.turn).head_object video.upload_key ≡ ok (some object_meta)
      → after_size p env trace video object_meta (record start { turn = start.turn + 1 })
        ≡ (ok out, end)
      → IsAccepted p env trace video start out end
  unfolding after_size
  size_end object_meta start head e =
      elim (Bool-cases (ltb_ℤ max_upload_size_bytes object_meta.size_bytes)) [
        | inl big ↦
            let (_, _, failed) =
              bind-end (schedule_delete_after_rejection p env trace video.id) _
                (record start { turn = start.turn + 1 }) out end (rw big at e) in
            absurd (ground (arith, failed))
        | inr small ↦ check_signature_end object_meta start head (ground arith) (rw small at e)
      ]

  check_upload_end :
      (v : World)
      → check_upload p env trace video v ≡ (ok out, end)
      → IsAccepted p env trace video v out end
  unfolding check_upload
  check_upload_end v e =
      let t = env v.turn in
      let v' = record v { turn = v.turn + 1 } in
      let (meta, head, rest) =
        bind-end (on_error storage_err_to_use_case_err (lift (t.head_object video.upload_key))) _ v'
          out end e in
      let (object_meta, present, rest') =
        bind-end (lift (ok_or meta file_not_found_in_storage)) (after_size p env trace video) v' out
          end rest in
      size_end object_meta v
        (map_err-ok storage_err_to_use_case_err _ meta head
          ∙ ap ok (ok_or-some meta _ object_meta present))
        rest'

settled :
    {A : Type 0} (env : Env) (w : World) (db : Db) (x : Fault) (a : A)
    → (settle env w db x (ok (a, db))).1 ≡ record w { db = db; turn = w.turn + 1 }
settled env w db no_fault a = refl
settled env w db (lost_request e) a = refl
settled env w db (lost_reply e) a = refl

-- A look-up leaves the tables as the other processes have left them.
found-begun :
    (env : Env) (id : VideoId) (w : World)
    → (statement env (λ _. Videos.find_by_id id) w).1 ≡ begun env w
unfolding statement Videos.find_by_id
found-begun env id w = settled env w ((env w.turn).interfere w.db) (env w.turn).fault _

-- If `execute` accepts an upload, then the video that it found was waiting for it; the storage, asked
-- next, told a size of at most 1 GB; the sixteen bytes that it read after that begin a file of the
-- video's format; the trace id fitted its column; and the transaction after that changed the video and
-- its ProcessVideo task together, on the tables as the other processes had left them.
pub execute-IsAccepted :
    (p : Platform) (env : Env) (trace : Option String) (id : VideoId) (w : World) (out : Output)
    (end : World)
    → execute p env trace id w ≡ (ok out, end)
    → (video : Video) × (find (λ v. eqb v.id id) ((env w.turn).interfere w.db).videos ≡ some video)
      × (video.status ≡ pending_upload)
      × IsAccepted p env trace video (begun env w) out end
unfolding execute
execute-IsAccepted p env trace id w out end e =
    let (found, asked, rest) =
      bind-end (on_error db_error (statement env (λ _. Videos.find_by_id id))) _ w out end e in
    let (video, present, rest') = bind-end (lift (ok_or found video_not_found)) _ _ out end rest in
    let is_found =
      sym (found-find env id w found (map_err-ok db_error _ found asked))
      ∙ ok_or-some found _ video present in
    elim (Bool-cases (status_eq video.status pending_upload)) [
      | inl waits ↦ (
        video,
        is_found,
        ground arith,
        check_upload_end p env trace video out end (begun env w) (
            subst (λ v. check_upload p env trace video v ≡ (ok out, end)) (found-begun env id w)
              (rw waits at rest')),
      )
      | inr other ↦ absurd (ground (arith, rw other at rest'))
    ]

-- An upload is never accepted under a trace id that is too long for its column: not for any video, any
-- file and any state of the tables, even if no call fails.
pub execute-long_trace :
    (p : Platform) (env : Env) (trace : Option String) (id : VideoId) (w : World) (out : Output)
    → too_long trace ≡ true
    → (execute p env trace id w).0 ≢ ok out
execute-long_trace p env trace id w out long e =
    let r = execute p env trace id w in
    let (video, _, _, a) = execute-IsAccepted p env trace id w out r.1 (ap (λ x. (x, r.1)) e) in
    absurd (cc (a.fits))
