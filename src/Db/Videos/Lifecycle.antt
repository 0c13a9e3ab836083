-- ===== src/Db/Videos/Lifecycle.antt =====
-- The states of a row, one statement of crates/infrastructure/src/postgres/video_repository.rs after
-- another.
use benri_stream.Prelude.{
  String, Bool, true, false, not, ◌&&◌, some, List, [], ◌∷◌, ◌≡◌, refl, ap, ◌∙◌, ◌⊎◌, inl, inr,
  arith, eqb, any, update_where, Bool-cases, In, here, there, In-keep, In-append, In-update_where,
}
use benri_stream.Video.{
  Video, VideoId, VideoStatus, pending_upload, uploaded, processing, processed, failed, status_eq,
}
use benri_stream.Db.Tables.{Db, after}
use benri_stream.Db.Videos.{
  at_status, row_allowed, insert, update_status_if, set_share_token, mark_processed, delete,
  bulk_mark_failed, token_allowed, write_token,
}

-- The conditional updates that the program makes: complete, claim and fail.
pub data Moves : VideoStatus → VideoStatus → Type 0 where
  complete : Moves pending_upload uploaded
  claim : Moves uploaded processing
  fail : Moves processing failed

-- The states that a row in the first state can be in after one statement.
abbrev pub can_become : VideoStatus → VideoStatus → Bool
can_become pending_upload pending_upload = true
can_become pending_upload uploaded = true
can_become uploaded uploaded = true
can_become uploaded processing = true
can_become uploaded failed = true
can_become processing processing = true
can_become processing processed = true
can_become processing failed = true
can_become processed processed = true
can_become failed failed = true
can_become _ _ = false

-- Each row was there before, in a state that leads to its own, or is new with a new id.
abbrev pub Follows : List Video → List Video → Type 0
Follows before after =
    (v : Video)
    → In v after
    → (v.status ≡ pending_upload) × (any (λ u. eqb u.id v.id) before ≡ false)
      ⊎ ((u : Video) × In u before × (v.id ≡ u.id) × (can_become u.status v.status ≡ true))

can_become_self : (s : VideoStatus) → can_become s s ≡ true
can_become_self pending_upload = refl
can_become_self _ = refl

pub Follows-self : (vs : List Video) → Follows vs vs
Follows-self vs v i = inr (v, i, refl, can_become_self v.status)

update_where-Follows :
    (test : Video → Bool) (change : Video → Video) (vs : List Video)
    → ((v : Video) → (change v).id ≡ v.id)
    → ((v : Video) → test v ≡ true → can_become v.status (change v).status ≡ true)
    → Follows vs (update_where test change vs)
update_where-Follows test change vs same_id goes v i =
    let (u, j, e) = In-update_where test change vs v i in
    elim (Bool-cases (test u)) [
      | inl t ↦
          let changed : v ≡ change u = (rw t at e) in
          inr (u, j, ap (λ (r : Video). r.id) changed ∙ same_id u, rw changed (goes u t))
      | inr t ↦
          let same : v ≡ u = (rw t at e) in
          inr (u, j, ap (λ (r : Video). r.id) same, rw same (can_become_self u.status))
    ]

moves :
    {s n : VideoStatus}
    → Moves s n
    → (v : VideoStatus) → status_eq v s ≡ true
    → can_become v n ≡ true
moves complete v h = ground arith
moves claim v h = ground arith
moves fail v h = ground arith

pub at_status-status :
    (id : VideoId) (s : VideoStatus) (v : Video)
    → at_status id s v ≡ true
    → status_eq v.status s ≡ true
at_status-status id s v h = ground arith

new_id :
    (v : Video) (vs : List Video) → row_allowed v vs ≡ true → any (λ u. eqb u.id v.id) vs ≡ false
new_id v vs h = ground arith

-- A row with a share token is either kept as it is, or changed where the write is allowed.
module _ (db : Db) (id : VideoId) (token : String) (change : Video → Video)
    (same_id : (v : Video) → (change v).id ≡ v.id) where
  abbrev pub refused : Bool
  refused = any (at_status id processing) db.videos && not (token_allowed id token db.videos)

  write_token-Follows :
      ((v : Video)
        → at_status id processing v ≡ true
        → can_become v.status (change v).status ≡ true)
      → Follows db.videos (after (write_token id token change) db).videos
  write_token-Follows goes = elim (Bool-cases refused) [
    | inl e ↦ rw (e, after) (Follows-self db.videos)
    | inr e ↦
        rw (e, after) (update_where-Follows (at_status id processing) change db.videos same_id goes)
  ]

only : (v w : Video) → In w (v ∷ []) → w ≡ v
only v w (here e) = e
only v w (there i) = elim i [ ]

module _ (db : Db) where
  pub insert-Follows :
      (v : Video) → v.status ≡ pending_upload → Follows db.videos (after (insert v) db).videos
  unfolding insert
  insert-Follows v new = elim (Bool-cases (row_allowed v db.videos)) [
    | inl e ↦
        rw (e, after)
          λ w i. elim (In-append db.videos (v ∷ []) w i) [
            | inl j ↦ Follows-self db.videos w j
            | inr j ↦ let same = only v w j in inl (rw same new, rw same (new_id v db.videos e))
          ]
    | inr e ↦ rw (e, after) (Follows-self db.videos)
  ]

  pub update_status_if-Follows :
      (id : VideoId) {s n : VideoStatus}
      → Moves s n
      → Follows db.videos (after (update_status_if id s n) db).videos
  unfolding update_status_if
  update_status_if-Follows id {s} {n} m =
      update_where-Follows (at_status id s) (λ v. record v { status = n }) db.videos (λ v. refl)
        (λ v t. moves m v.status (at_status-status id s v t))

  pub set_share_token-Follows :
      (id : VideoId) (token : String)
      → Follows db.videos (after (set_share_token id token) db).videos
  unfolding set_share_token
  set_share_token-Follows id token =
      write_token-Follows db id token (λ v. record v { share_token = some token }) (λ v. refl)
        (λ v t. can_become_self v.status)

  pub mark_processed-Follows :
      (id : VideoId) (token : String)
      → Follows db.videos (after (mark_processed id token) db).videos
  unfolding mark_processed
  mark_processed-Follows id token =
      write_token-Follows db id token
        (λ v. record v { share_token = some token; status = processed }) (λ v. refl)
        (λ v t. ground arith)

  pub delete-Follows : (id : VideoId) → Follows db.videos (after (delete id) db).videos
  unfolding delete
  delete-Follows id v i =
      Follows-self db.videos v (In-keep (λ w. not (eqb w.id id)) db.videos v i).0

  pub bulk_mark_failed-Follows :
      (ids : List VideoId)
      → Follows db.videos (after (bulk_mark_failed ids (uploaded ∷ processing ∷ [])) db).videos
  unfolding bulk_mark_failed
  bulk_mark_failed-Follows [] = Follows-self db.videos
  bulk_mark_failed-Follows (id ∷ ids) =
      update_where-Follows _ (λ v. record v { status = failed }) db.videos (λ v. refl)
        (λ v t. ground arith)
