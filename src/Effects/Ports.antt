-- ===== src/Effects/Ports.antt =====
-- The ports of crates/domain/src/ports, as data: what can be asked of the outside and answered.
use benri_stream.Prelude.{ℕ, String, Bool, Option, List, [], ◌∷◌, ℤ, concat}
use benri_stream.Platform.{Uuid, Result, ok, err, map_err}
use benri_stream.Video.{DateTime}
use benri_stream.Task.Scheduler.{RepositoryError, database}
use benri_stream.Db.Tables.{Db}

pub data StorageError : Type 0 where
  internal : String → StorageError
  not_found : String → StorageError

-- The Display of the errors.
unfoldable pub show_storage_error : StorageError → String
show_storage_error (StorageError.internal m) = concat ("storage error: " ∷ m ∷ [])
show_storage_error (StorageError.not_found m) = concat ("object not found: " ∷ m ∷ [])

unfoldable pub show_repository_error : RepositoryError → String
show_repository_error (database m) = concat ("database error: " ∷ m ∷ [])

pub data TranscoderError : Type 0 where
  probe_failed : String → TranscoderError
  transcode_failed : String → TranscoderError

pub record ObjectMetadata : Type 0 where
  pub size_bytes : ℤ
  pub content_type : Option String

-- The source's duration, a float, is used by nothing and left out.
pub record ProbeResult : Type 0 where
  pub width : ℕ
  pub height : ℕ
  pub codec : String
  pub has_audio : Bool

pub data LockError : Type 0 where
  internal : String → LockError

pub data QueueError : Type 0 where
  internal : String → QueueError

unfoldable pub show_lock_error : LockError → String
show_lock_error (LockError.internal m) = concat ("lock error: " ∷ m ∷ [])

unfoldable pub show_queue_error : QueueError → String
show_queue_error (QueueError.internal m) = concat ("queue error: " ∷ m ∷ [])

-- How a call to the database can go wrong: before it takes effect, or after.
pub data Fault : Type 0 where
  no_fault : Fault
  lost_request : String → Fault
  lost_reply : String → Fault

-- What a process did to the storage, with its success.
pub data StorageCall : Type 0 where
  deleted_prefix : String → StorageCall
  deleted_object : String → StorageCall

-- The answers of the environment to one call.
pub record Turn : Type 0 where
  pub interfere : Db → Db
  pub fault : Fault
  pub now : DateTime
  pub uuid : Uuid
  pub share_token : String
  pub presigned_upload :
      (key content_type : String) (max_size : ℤ) (expiry : ℕ) → Result StorageError String
  pub head_object : (key : String) → Result StorageError (Option ObjectMetadata)
  pub read_range : (key : String) (start end : ℕ) → Result StorageError (List ℕ)
  pub storage_done : StorageCall → Result StorageError (Unit {0})
  pub probe : (key : String) → Result TranscoderError ProbeResult
  pub transcoded :
      (input_key output_prefix : String) → ProbeResult → Result TranscoderError (Unit {0})
  -- Whether the transcoder fired the `FirstSegmentNotifier`.
  pub first_segment : Bool
  -- Whether the handler that starts now is cancelled because its time is up.
  pub timed_out : Bool
  pub acquired : (key : String) (ttl_secs : ℕ) → Result LockError (Option String)
  pub published : Result QueueError (Unit {0})
  pub popped : Result QueueError (Option Uuid)

pub record World : Type 0 where
  pub db : Db
  pub turn : ℕ
  pub storage : List StorageCall
  -- The task ids that this process pushed to the queue, and the locks that it gave back.
  pub queue : List Uuid
  pub released : List String

abbrev pub Env : Type 0
Env = ℕ → Turn

-- A computation that returns in any case.
abbrev pub Run : Type 0 → Type 0
Run A = World → A × World

-- A computation that may fail with an `E`.
abbrev pub M : Type 0 → Type 0 → Type 0
M E A = World → Result E A × World

module _ {E A : Type 0} where
  abbrev pub pure : A → M E A
  pure a w = (ok a, w)

  abbrev pub fail : E → M E A
  fail e w = (err e, w)

  abbrev pub lift : Result E A → M E A
  lift r w = (r, w)

module _ {E A B : Type 0} where
  abbrev pub continue : Result E A → (A → M E B) → M E B
  continue (ok a) f = f a
  continue (err e) f = fail e

  infixl 5 ◌>>=◌ ◌>>◌
  abbrev pub ◌>>=◌ : M E A → (A → M E B) → M E B
  m >>= f = λ w. let (r, w') = m w in continue r f w'

  abbrev pub ◌>>◌ : M E A → M E B → M E B
  m >> n = m >>= λ _. n

-- `m.map_err(f)`
abbrev pub on_error : {E F A : Type 0} → (E → F) → M E A → M F A
on_error f m w = let (r, w') = m w in (map_err f r, w')

-- `m` as a value: its result is looked at, and its error does not end the caller.
abbrev pub attempt : {E F A : Type 0} → M E A → M F (Result E A)
attempt m w = let (r, w') = m w in (ok r, w')
