-- ===== src/Db/Tasks.antt =====
-- crates/infrastructure/src/postgres/task_repository.rs: each statement on the table `tasks`.
pub mod Selection
pub mod Exclusion
pub mod Growth
pub mod Sorting
pub mod Completeness
pub mod Order
use Prim.Native.Char.{code}
use Prim.Native.String.{count}
use benri_stream.Prelude.{
  ℕ, ◌+◌, ◌*◌, String, Bool, true, false, not, ◌&&◌, ◌||◌, Option, none, some, List, [], ◌∷◌, ◌++◌,
  ◌==◌, if◌then◌else◌, eqb, ltb, leb, keep, any, find, update_where, take, length, is_empty, map,
  trim_end, ltb_ℤ, leb_ℤ, ℤ, pos, ◌-ℤ◌,
}
use benri_stream.Platform.{ok, err, Result}
use benri_stream.Video.{DateTime}
use benri_stream.Task.Status.{TaskStatus, status_eq, pending, in_progress}
use benri_stream.Task.Types.{Task, TaskId, TaskUpdate, from_secs}
use benri_stream.Task.Scheduler.{RepositoryError, database}
use benri_stream.Db.Tables.{Db, Stmt}

abbrev pub has_id : List TaskId → TaskId → Bool
has_id ids id = any (λ i. eqb id i) ids

unfoldable pub find_by_id : TaskId → Stmt (Option Task)
find_by_id id db = ok (find (λ t. eqb t.id id) db.tasks, db)

unfoldable pub find_by_ids : List TaskId → Stmt (List Task)
find_by_ids ids db = ok (keep (λ t. has_id ids t.id) db.tasks, db)

-- `ordering_key = $1`: false where the column is NULL.
abbrev pub has_key : String → Task → Bool
has_key key t = elim t.ordering_key [ none ↦ false | some k ↦ k == key ]

abbrev pub is_keyed : Task → Bool
is_keyed t = elim t.ordering_key [ none ↦ false | some k ↦ true ]

-- The key of the row is that of a row in progress: the CTE `blocked_keys`.
unfoldable pub is_blocked : List Task → Task → Bool
is_blocked ts t = elim t.ordering_key [
  | none ↦ false
  | some key ↦ any (λ u. status_eq u.status in_progress && has_key key u) ts
]

-- The CTE `eligible`.
unfoldable pub is_eligible : List Task → DateTime → Task → Bool
is_eligible ts before t =
    status_eq t.status pending && leb_ℤ t.next_run_at before && not (is_blocked ts t)

-- ORDER BY next_run_at ASC, id ASC
unfoldable pub runs_before : Task → Task → Bool
runs_before t u =
    ltb_ℤ t.next_run_at u.next_run_at || (leb_ℤ t.next_run_at u.next_run_at && leb t.id u.id)

unfoldable pub insert_sorted : Task → List Task → List Task
insert_sorted t [] = t ∷ []
insert_sorted t (u ∷ us) = if runs_before t u then t ∷ u ∷ us else u ∷ insert_sorted t us

unfoldable pub sort_by_run : List Task → List Task
sort_by_run [] = []
sort_by_run (t ∷ ts) = insert_sorted t (sort_by_run ts)

abbrev pub same_key : Task → Task → Bool
same_key t u = elim t.ordering_key [ none ↦ false | some k ↦ has_key k u ]

-- DISTINCT ON (ordering_key): the first row of each key, `seen` being the rows taken before.
unfoldable pub distinct_on : List Task → List Task → List Task
distinct_on seen [] = []
distinct_on seen (t ∷ ts) =
    let skipped = distinct_on seen ts in
    let taken = t ∷ distinct_on (t ∷ seen) ts in if any (same_key t) seen then skipped else taken

-- The CTE `keyed_dedup`.
unfoldable pub keyed_dedup : List Task → List Task
keyed_dedup eligible = distinct_on [] (sort_by_run (keep is_keyed eligible))

-- The CTE `selected`.
unfoldable pub selected : List Task → DateTime → List Task
selected ts before =
    let eligible = keep (is_eligible ts before) ts in
    keyed_dedup eligible ++ keep (λ t. not (is_keyed t)) eligible

unfoldable pub find_pending : ℕ → DateTime → Stmt (List Task)
find_pending limit before db = ok (take limit (sort_by_run (selected db.tasks before)), db)

abbrev pub start_task : DateTime → Task → Task
start_task started_at t = record t {
  status = in_progress;
  started_at = some started_at;
  updated_at = started_at;
}

unfoldable pub mark_in_progress : List TaskId → DateTime → Stmt (Unit {0})
mark_in_progress ids started_at db =
    ok (
      tt,
      record db { tasks = update_where (λ t. has_id ids t.id) (start_task started_at) db.tasks },
    )

abbrev coalesce {ℓ} : {A : Type ℓ} → Option A → A → A
coalesce none a = a
coalesce (some b) a = b

-- The SET clause of `batch_update`.
unfoldable pub apply_update : TaskUpdate → Task → Task
apply_update v t = record t {
  status = v.status;
  attempt_count = v.attempt_count;
  next_run_at = coalesce v.next_run_at t.next_run_at;
  error = v.error;
  completed_at = v.completed_at;
  updated_at = v.updated_at;
}

-- The first update that names a row, where Postgres takes one of them.
abbrev pub update_row : List TaskUpdate → Task → Task
update_row [] t = t
update_row (v ∷ vs) t = if eqb t.id v.task_id then apply_update v t else update_row vs t

unfoldable pub batch_update : List TaskUpdate → Stmt (Unit {0})
unfolding apply_update
batch_update updates db = ok (tt, record db { tasks = map (update_row updates) db.tasks })

-- STALE_RECOVERY_INTERVAL
abbrev pub stale_recovery_interval : ℕ
stale_recovery_interval = from_secs (60 * 60)

unfoldable pub is_stale : DateTime → Task → Bool
is_stale now t = status_eq t.status in_progress && (elim t.started_at [
  | none ↦ false
  | some started_at ↦ ltb_ℤ started_at (now -ℤ pos stale_recovery_interval)
])

abbrev pub reset_task : DateTime → Task → Task
reset_task now t = record t { status = pending; started_at = none; updated_at = now }

-- `now` is the NOW() of the statement. The answer is the number of rows.
unfoldable pub reset_stale : DateTime → Stmt ℕ
reset_stale now db = ok (
  length (keep (is_stale now) db.tasks),
  record db { tasks = update_where (is_stale now) (reset_task now) db.tasks },
)

abbrev pub is_active : TaskStatus → Bool
is_active s = status_eq s pending || status_eq s in_progress

unfoldable pub count_active_by_type : String → Stmt ℕ
count_active_by_type metadata_type db =
    ok (length (keep (λ t. t.metadata_type == metadata_type && is_active t.status) db.tasks), db)

-- A text too long for the column VARCHAR(32). Postgres cuts off spaces at the end; such a text is
-- kept here as it is.
unfoldable pub too_long : Option String → Bool
unfolding trim_end
too_long none = false
too_long (some trace_id) = ltb 32 (count (trim_end (λ c. eqb (code c) 32) trace_id))

unfoldable pub create : Task → Stmt Task
create t db =
    if any (λ u. eqb u.id t.id) db.tasks || too_long t.trace_id
    then err (database "tasks: a constraint is violated")
    else ok (t, record db { tasks = db.tasks ++ t ∷ [] })

-- No two rows of the table and of `ts` have one id.
abbrev pub all_new : List Task → List Task → Bool
all_new rows [] = true
all_new rows (t ∷ ts) = not (any (λ u. eqb u.id t.id) rows) && all_new (t ∷ rows) ts

unfoldable pub bulk_create : List Task → Stmt (Unit {0})
bulk_create ts db =
    if is_empty ts
    then ok (tt, db)
    else if all_new db.tasks ts && not (any (λ t. too_long t.trace_id) ts)
    then ok (tt, record db { tasks = db.tasks ++ ts })
    else err (database "tasks: a constraint is violated")
