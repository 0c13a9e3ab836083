-- ===== src/Video.antt =====
-- crates/domain/src/video/mod.rs: the video entity. Its status and its format are in the modules
-- below, whose types this module passes on.
pub mod Status
pub mod Format
pub use Status.{VideoStatus, pending_upload, uploaded, processing, processed, failed, status_eq}
pub use Format.{VideoFormat, mp4, webm, mov, avi, mkv}
use benri_stream.Prelude.{
  ℕ, String, Bool, true, false, ◌&&◌, ◌||◌, Option, none, some, [], ◌∷◌, if◌then◌else◌, concat, ℤ,
  pos,
}
use benri_stream.Platform.{Uuid, Platform}

abbrev pub max_upload_size_bytes : ℤ
max_upload_size_bytes = pos 1073741824

abbrev pub max_title_length : ℕ
max_title_length = 100

abbrev pub share_token_length : ℕ
share_token_length = 21

abbrev pub VideoId : Type 0
VideoId = Uuid

-- Nanoseconds since 1970-01-01T00:00:00Z.
abbrev pub DateTime : Type 0
DateTime = ℤ

pub record Video : Type 0 where
  pub id : VideoId
  pub share_token : Option String
  pub title : String
  pub format : VideoFormat
  pub status : VideoStatus
  pub upload_key : String
  pub created_at : DateTime

unfoldable pub share_url : String → Video → Option String
share_url base_url v = elim v.share_token [
  | none ↦ none
  | some token ↦ some (concat (base_url ∷ "/v/" ∷ token ∷ []))
]

abbrev pub is_some {ℓ} : {A : Type ℓ} → Option A → Bool
is_some none = false
is_some (some a) = true

unfoldable pub is_streamable : Video → Bool
is_streamable v =
    status_eq v.status processed || (status_eq v.status processing && is_some v.share_token)

module _ (p : Platform) where
  unfoldable pub storage_prefix : Video → String
  storage_prefix v = concat ("videos/" ∷ p.show_uuid v.id ∷ "/" ∷ [])

  unfoldable pub stream_url : String → Video → Option String
  unfolding is_streamable
  stream_url cdn_base_url v =
      if is_streamable v
      then some (concat (cdn_base_url ∷ "/" ∷ storage_prefix v ∷ "master.m3u8" ∷ []))
      else none
