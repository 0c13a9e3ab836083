-- ===== src/Db/Videos/Forms.antt =====
-- Well-formed rows under the statements of
-- crates/infrastructure/src/postgres/video_repository.rs.
use benri_stream.Prelude.{
  String, true, not, Option, none, some, List, [], ◌∷◌, ◌≡◌, refl, inl, inr, arith, eqb, Bool-cases,
  any_of_In,
}
use benri_stream.Video.{
  Video, VideoId, VideoStatus, pending_upload, uploaded, processing, processed, failed, status_eq,
}
use benri_stream.Db.Tables.{Db, after}
use benri_stream.Db.Videos.{
  at_status, row_allowed, insert, update_status_if, set_share_token, mark_processed, delete,
  bulk_mark_failed, write_token,
}
use benri_stream.Db.Videos.Tokens.{
  TokenFits, IsWellFormed, update_where-IsWellFormed, write_token-IsWellFormed, keep-IsWellFormed,
  append-IsWellFormed,
}
use benri_stream.Db.Videos.Lifecycle.{Moves, complete, claim, fail, at_status-status, refused}

module _ (db : Db) (id : VideoId) (token : String) (change : Video → Video)
    (same_id : (v : Video) → (change v).id ≡ v.id) where
  write_token-keeps :
      ((v : Video) → (change v).share_token ≡ some token)
      → ((v : Video) → v.status ≡ processing → TokenFits (change v).status (change v).share_token)
      → IsWellFormed db.videos
      → IsWellFormed (after (write_token id token change) db).videos
  write_token-keeps written fits h = elim (Bool-cases (refused db id token change same_id)) [
    | inl e ↦ rw (e, after) h
    | inr e ↦
        rw (e, after)
          (write_token-IsWellFormed id token change same_id written fits db.videos
            (λ v i t.
              let found = any_of_In (at_status id processing) db.videos v i t in ground arith)
            h)
  ]

-- The same statements keep the rows well formed.
module _ (db : Db) (h : IsWellFormed db.videos) where
  pub insert-IsWellFormed :
      (v : Video)
      → v.status ≡ pending_upload
      → v.share_token ≡ none
      → IsWellFormed (after (insert v) db).videos
  unfolding insert
  insert-IsWellFormed v s t = elim (Bool-cases (row_allowed v db.videos)) [
    | inl e ↦ rw (e, after) (append-IsWellFormed db.videos v (rw s t) t h)
    | inr e ↦ rw (e, after) h
  ]

  moved_fits :
      {s n : VideoStatus} (v : VideoStatus) (t : Option String)
      → Moves s n
      → status_eq v s ≡ true
      → TokenFits v t
      → TokenFits n t
  moved_fits pending_upload t complete e f = f
  moved_fits uploaded t claim e f = tt
  moved_fits v t fail e f = tt
  moved_fits _ t complete e f = absurd (cc)
  moved_fits _ t claim e f = tt

  pub update_status_if-IsWellFormed :
      (id : VideoId) {s n : VideoStatus}
      → Moves s n
      → IsWellFormed (after (update_status_if id s n) db).videos
  unfolding update_status_if
  update_status_if-IsWellFormed id {s} {n} m =
      update_where-IsWellFormed (at_status id s) (λ v. record v { status = n }) (λ v. refl)
        (λ v. refl) (λ v t. moved_fits v.status v.share_token m (at_status-status id s v t))
        db.videos h

  pub set_share_token-IsWellFormed :
      (id : VideoId) (token : String) → IsWellFormed (after (set_share_token id token) db).videos
  unfolding set_share_token
  set_share_token-IsWellFormed id token =
      write_token-keeps db id token (λ v. record v { share_token = some token }) (λ v. refl)
        (λ v. refl) (λ v e. rw e tt) h

  pub mark_processed-IsWellFormed :
      (id : VideoId) (token : String) → IsWellFormed (after (mark_processed id token) db).videos
  unfolding mark_processed
  mark_processed-IsWellFormed id token =
      write_token-keeps db id token (λ v. record v { share_token = some token; status = processed })
        (λ v. refl) (λ v. refl) (λ v e. (token, refl)) h

  pub delete-IsWellFormed : (id : VideoId) → IsWellFormed (after (delete id) db).videos
  unfolding delete
  delete-IsWellFormed id = keep-IsWellFormed (λ w. not (eqb w.id id)) db.videos h

  pub bulk_mark_failed-IsWellFormed :
      (ids : List VideoId) (from : List VideoStatus)
      → IsWellFormed (after (bulk_mark_failed ids from) db).videos
  unfolding bulk_mark_failed
  bulk_mark_failed-IsWellFormed [] from = h
  bulk_mark_failed-IsWellFormed (id ∷ ids) from =
      update_where-IsWellFormed _ (λ v. record v { status = failed }) (λ v. refl) (λ v. refl)
        (λ v t f. tt) db.videos h
