-- ===== src/Video/Status.antt =====
-- `VideoStatus` of crates/domain/src/video/mod.rs, with its text in the database.
use benri_stream.Prelude.{
  String, Bool, true, false, Option, none, some, ◌≡◌, ◌↔◌, refl, ◌==◌, if◌then◌else◌, arith, eq_iff,
}

pub data VideoStatus : Type 0 where
  pending_upload uploaded processing processed failed : VideoStatus

-- `==` of the derived `PartialEq`.
abbrev pub status_eq : VideoStatus → VideoStatus → Bool
status_eq pending_upload pending_upload = true
status_eq uploaded uploaded = true
status_eq processing processing = true
status_eq processed processed = true
status_eq failed failed = true
status_eq _ _ = false

unfoldable pub as_str : VideoStatus → String
as_str pending_upload = "PENDING_UPLOAD"
as_str uploaded = "UPLOADED"
as_str processing = "PROCESSING"
as_str processed = "PROCESSED"
as_str failed = "FAILED"

unfoldable pub from_str : String → Option VideoStatus
from_str s =
    if s == "PENDING_UPLOAD"
    then some pending_upload
    else if s == "UPLOADED"
    then some uploaded
    else if s == "PROCESSING"
    then some processing
    else if s == "PROCESSED"
    then some processed
    else if s == "FAILED"
    then some failed
    else none

pub from_str-as_str : (s : VideoStatus) → from_str (as_str s) ≡ some s
unfolding from_str as_str
from_str-as_str pending_upload = refl
from_str-as_str _ = refl

pub as_str-from_str : (t : String) (s : VideoStatus) → from_str t ≡ some s → t ≡ as_str s
unfolding from_str as_str
as_str-from_str t s h = ground (
  arith,
  eq_iff t "PENDING_UPLOAD",
  eq_iff t "UPLOADED",
  eq_iff t "PROCESSING",
  eq_iff t "PROCESSED",
  eq_iff t "FAILED",
)

-- A text reads as a status exactly if it is the text that this status is stored as.
pub video_status_roundtrip : (t : String) (s : VideoStatus) → (from_str t ≡ some s) ↔ (t ≡ as_str s)
video_status_roundtrip t s = (as_str-from_str t s, λ e. rw e (from_str-as_str s))
