-- ===== src/Db/Videos.antt =====
-- crates/infrastructure/src/postgres/video_repository.rs: each statement on the table `videos`.
pub mod Tokens
pub mod Lifecycle
pub mod Forms
use Prim.Native.String.{count}
use benri_stream.Prelude.{
  String, Bool, true, false, not, ◌&&◌, Option, none, some, List, [], ◌∷◌, ◌++◌, ◌==◌,
  if◌then◌else◌, leb, eqb, keep, any, find, update_where, is_empty, ltb_ℤ,
}
use benri_stream.Platform.{ok, err}
use benri_stream.Video.{
  Video, VideoId, DateTime, VideoStatus, status_eq, pending_upload, uploaded, processing, processed,
  failed, share_token_length, max_title_length,
}
use benri_stream.Task.Scheduler.{database}
use benri_stream.Db.Tables.{Stmt}

abbrev pub has_token : String → Video → Bool
has_token token v = elim v.share_token [ none ↦ false | some t ↦ t == token ]

-- `share_token = $1`: false where the column is NULL.
abbrev pub token_fits : Option String → Bool
token_fits none = true
token_fits (some token) = leb (count token) share_token_length

abbrev pub token_taken : Option String → List Video → Bool
token_taken none vs = false
token_taken (some token) vs = any (has_token token) vs

-- PRIMARY KEY (id), UNIQUE (share_token), VARCHAR(21) and VARCHAR(100).
abbrev pub row_allowed : Video → List Video → Bool
row_allowed v vs =
    not (any (λ w. eqb w.id v.id) vs)
    && not (token_taken v.share_token vs)
    && token_fits v.share_token
    && leb (count v.title) max_title_length

unfoldable pub find_by_id : VideoId → Stmt (Option Video)
find_by_id id db = ok (find (λ v. eqb v.id id) db.videos, db)

unfoldable pub find_by_share_token : String → Stmt (Option Video)
find_by_share_token token db = ok (find (has_token token) db.videos, db)

abbrev pub is_transient : VideoStatus → Bool
is_transient pending_upload = true
is_transient uploaded = true
is_transient processing = true
is_transient _ = false

unfoldable pub find_stale : DateTime → Stmt (List Video)
find_stale before db =
    ok (keep (λ v. is_transient v.status && ltb_ℤ v.created_at before) db.videos, db)

unfoldable pub find_failed_before : DateTime → Stmt (List Video)
find_failed_before before db =
    ok (keep (λ v. status_eq v.status failed && ltb_ℤ v.created_at before) db.videos, db)

unfoldable pub insert : Video → Stmt (Unit {0})
insert v db =
    if row_allowed v db.videos
    then ok (tt, record db { videos = db.videos ++ v ∷ [] })
    else err (database "videos: a constraint is violated")

-- WHERE id = $1 AND status = $2
abbrev pub at_status : VideoId → VideoStatus → Video → Bool
at_status id status v = eqb v.id id && status_eq v.status status

unfoldable pub update_status_if : VideoId → VideoStatus → VideoStatus → Stmt Bool
update_status_if id expected new_status db = ok (
  any (at_status id expected) db.videos,
  record db {
    videos = update_where (at_status id expected) (λ v. record v { status = new_status }) db.videos;
  },
)

-- The token may be written: it is short enough, and no other row has it.
abbrev pub token_allowed : VideoId → String → List Video → Bool
token_allowed id token vs =
    leb (count token) share_token_length
    && not (any (λ v. not (eqb v.id id) && has_token token v) vs)

-- An UPDATE that writes a token where a row matches, and breaks a constraint if it must not.
abbrev pub write_token : VideoId → String → (Video → Video) → Stmt Bool
write_token id share_token change db =
    if any (at_status id processing) db.videos && not (token_allowed id share_token db.videos)
    then err (database "videos: a constraint is violated")
    else ok (
      any (at_status id processing) db.videos,
      record db { videos = update_where (at_status id processing) change db.videos },
    )

unfoldable pub set_share_token : VideoId → String → Stmt Bool
set_share_token id share_token =
    write_token id share_token (λ v. record v { share_token = some share_token })

unfoldable pub mark_processed : VideoId → String → Stmt Bool
mark_processed id share_token =
    write_token id share_token
      (λ v. record v { share_token = some share_token; status = processed })

unfoldable pub delete : VideoId → Stmt (Unit {0})
delete id db = ok (tt, record db { videos = keep (λ v. not (eqb v.id id)) db.videos })

unfoldable pub bulk_mark_failed : List VideoId → List VideoStatus → Stmt (Unit {0})
bulk_mark_failed ids from_statuses db =
    if is_empty ids
    then ok (tt, db)
    else ok (
      tt,
      record db {
        videos =
            update_where
              (λ v. any (λ id. eqb v.id id) ids && any (λ s. status_eq v.status s) from_statuses)
              (λ v. record v { status = failed }) db.videos;
      },
    )
