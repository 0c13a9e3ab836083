-- ===== src/Task/Types.antt =====
-- The data of crates/domain/src/task/mod.rs and crates/domain/src/task/result.rs.
use benri_stream.Prelude.{ℕ, ◌*◌, String, Bool, false, Option, none, ℤ, ◌*ℤ◌, pos, ◌/◌, as_signed}
use benri_stream.Platform.{Uuid, Result}
use benri_stream.Video.{DateTime}
use benri_stream.Task.Status.{TaskStatus}

abbrev pub TaskId : Type 0
TaskId = Uuid

-- `std::time::Duration`, in nanoseconds.
abbrev pub Duration : Type 0
Duration = ℕ

abbrev pub from_secs : ℕ → Duration
from_secs s = s * 1000000000

-- `d.as_millis() as i64`
unfoldable pub millis_i64 : Duration → ℤ
millis_i64 d = as_signed 64 (pos (d / 1000000))

-- `chrono::Duration::milliseconds` and `chrono::Duration::seconds`, in nanoseconds.
abbrev pub milliseconds : ℤ → ℤ
milliseconds ms = ms *ℤ pos 1000000

abbrev pub seconds : ℤ → ℤ
seconds s = s *ℤ pos 1000000000

pub record Task : Type 0 where
  pub id : TaskId
  pub metadata_type : String
  pub metadata : String
  pub status : TaskStatus
  pub ordering_key : Option String
  pub trace_id : Option String
  pub attempt_count : ℤ
  pub next_run_at : DateTime
  pub error : Option String
  pub started_at : Option DateTime
  pub completed_at : Option DateTime
  pub created_at : DateTime
  pub updated_at : DateTime

pub record TaskUpdate : Type 0 where
  pub task_id : TaskId
  pub status : TaskStatus
  pub attempt_count : ℤ
  pub next_run_at : Option DateTime
  pub error : Option String
  pub completed_at : Option DateTime
  pub updated_at : DateTime

pub data OutcomeKind : Type 0 where
  success retried failed : OutcomeKind

pub data TaskResult : Type 0 where
  success : (message : Option String) (reschedule_after : Option Duration) → TaskResult
  retryable_failure : (error : String) (retry_after : Option Duration) → TaskResult
  permanent_failure : (error : String) → TaskResult
  skip : (reason : String) → TaskResult
  terminate : (reason : String) → TaskResult

pub record TaskRunOutcome : Type 0 where
  pub update : TaskUpdate
  pub kind : OutcomeKind

-- The trait `TaskMetadata`: what a type of task configures. `to_value` is its `Serialize`.
pub record TaskMetadata : Type 0 where
  pub processing_timeout : Duration
  pub execution_interval : Option Duration
  pub max_retries : Option ℤ
  pub retry_base_delay : Duration
  pub ordering_key : Option String
  pub is_system_task : Bool
  pub metadata_type_name : String
  pub to_value : Result String String

-- The trait's default methods.
abbrev pub default_metadata : String → Result String String → TaskMetadata
default_metadata metadata_type_name to_value = record {
  processing_timeout = from_secs 300;
  execution_interval = none;
  max_retries = none;
  retry_base_delay = from_secs 30;
  ordering_key = none;
  is_system_task = false;
  metadata_type_name = metadata_type_name;
  to_value = to_value;
}
