-- ===== src/Task/Status.antt =====
-- `TaskStatus` of crates/domain/src/task/mod.rs, with its text in the database.
use benri_stream.Prelude.{
  String, Bool, true, false, Option, none, some, ◌≡◌, ◌↔◌, refl, ◌==◌, if◌then◌else◌, arith, eq_iff,
}

pub data TaskStatus : Type 0 where
  pending in_progress completed dead_letter : TaskStatus

-- `==` of the derived `PartialEq`.
abbrev pub status_eq : TaskStatus → TaskStatus → Bool
status_eq pending pending = true
status_eq in_progress in_progress = true
status_eq completed completed = true
status_eq dead_letter dead_letter = true
status_eq _ _ = false

unfoldable pub as_str : TaskStatus → String
as_str pending = "PENDING"
as_str in_progress = "IN_PROGRESS"
as_str completed = "COMPLETED"
as_str dead_letter = "DEAD_LETTER"

unfoldable pub from_str : String → Option TaskStatus
from_str s =
    if s == "PENDING"
    then some pending
    else if s == "IN_PROGRESS"
    then some in_progress
    else if s == "COMPLETED"
    then some completed
    else if s == "DEAD_LETTER"
    then some dead_letter
    else none

pub from_str-as_str : (s : TaskStatus) → from_str (as_str s) ≡ some s
unfolding from_str as_str
from_str-as_str pending = refl
from_str-as_str _ = refl

pub as_str-from_str : (t : String) (s : TaskStatus) → from_str t ≡ some s → t ≡ as_str s
unfolding from_str as_str
as_str-from_str t s h = ground (
  arith,
  eq_iff t "PENDING",
  eq_iff t "IN_PROGRESS",
  eq_iff t "COMPLETED",
  eq_iff t "DEAD_LETTER",
)

-- A text reads as a status exactly if it is the text that this status is stored as.
pub task_status_roundtrip : (t : String) (s : TaskStatus) → (from_str t ≡ some s) ↔ (t ≡ as_str s)
task_status_roundtrip t s = (as_str-from_str t s, λ e. rw e (from_str-as_str s))
