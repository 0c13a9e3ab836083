-- ===== src/Db/Tasks/Order.antt =====
-- `find_pending` of crates/infrastructure/src/postgres/task_repository.rs: which rows, in which order.
use benri_stream.Prelude.{
  ℕ, ◌≤◌, String, true, some, List, [], ◌∷◌, ◌≡◌, ◌⊎◌, refl, inl, inr, arith, any, keep, take,
  length, In, Bool-cases, ◌≤ℤ◌, In-cons, In-keep_back, In-take, subst,
}
use benri_stream.Platform.{ok}
use benri_stream.Video.{DateTime}
use benri_stream.Task.Types.{Task}
use benri_stream.Db.Tables.{Db}
use benri_stream.Db.Tasks.{
  is_keyed, is_eligible, sort_by_run, same_key, distinct_on, keyed_dedup, selected, find_pending,
}
use benri_stream.Db.Tasks.Selection.{
  In-distinct_on, later_differs, In-sort_by_run, In-selected, In-selected_keyed, selected_unique,
  keyed_of,
}
use benri_stream.Db.Tasks.Sorting.{
  IsSorted, In-sort_back, sort_by_run-IsSorted, take-IsSorted, take-length, In-take_or_full,
}
use benri_stream.Db.Tasks.Completeness.{selected_complete}

same_seen :
    (t a : Task) (k : String) (seen : List Task)
    → t.ordering_key ≡ some k
    → a.ordering_key ≡ some k
    → any (same_key t) seen ≡ any (same_key a) seen
same_seen t a k seen kt ka = rw (kt, ka) refl

-- The row of a key that is taken runs no later than the others of this key.
distinct_on_first :
    (seen ts : List Task) (a u : Task) (k : String)
    → IsSorted ts
    → In a (distinct_on seen ts)
    → In u ts
    → a.ordering_key ≡ some k
    → u.ordering_key ≡ some k
    → a.next_run_at ≤ℤ u.next_run_at
unfolding distinct_on
distinct_on_first seen [] a u k sorted i j ka ku = elim j [ ]
distinct_on_first seen (t ∷ ts) a u k (first, rest) i j ka ku =
    elim (Bool-cases (any (same_key t) seen)) [
      | inl e ↦
          let i' = rw e at i in
          elim (In-cons j) [
            | inl ut ↦
                let new = (In-distinct_on seen ts a i').1 in
                absurd (cc (same_seen t a k seen (rw (← ut) ku) ka))
            | inr j' ↦ distinct_on_first seen ts a u k rest i' j' ka ku
          ]
      | inr e ↦ elim (In-cons (rw e at i)) [
        | inl at ↦ elim (In-cons j) [
          | inl ut ↦ rw (at, ut) (omega arith)
          | inr j' ↦ rw at (first u j')
        ]
        | inr i' ↦ elim (In-cons j) [
          | inl ut ↦ absurd (later_differs seen ts t a k i' (rw (← ut) ku) ka)
          | inr j' ↦ distinct_on_first (t ∷ seen) ts a u k rest i' j' ka ku
        ]
      ]
    ]

selected_first :
    (ts : List Task) (before : DateTime) (a u : Task) (k : String)
    → In a (selected ts before)
    → In u ts
    → is_eligible ts before u ≡ true
    → a.ordering_key ≡ some k
    → u.ordering_key ≡ some k
    → a.next_run_at ≤ℤ u.next_run_at
unfolding keyed_dedup
selected_first ts before a u k i j e ka ku =
    let rows = keep (is_eligible ts before) ts in
    distinct_on_first [] (sort_by_run (keep is_keyed rows)) a u k
      (sort_by_run-IsSorted (keep is_keyed rows)) (In-selected_keyed ts before a k i ka)
      (In-sort_back (keep is_keyed rows) u (
        In-keep_back is_keyed rows u (In-keep_back (is_eligible ts before) ts u j e)
          (keyed_of u k ku)))
      ka ku

-- What `find_pending` promises of the rows that it answers.
pub record IsBatch (limit : ℕ) (before : DateTime) (ts rows : List Task) : Type 0 where
  pub bounded : length rows ≤ limit
  pub sorted : IsSorted rows
  pub eligible : (a : Task) → In a rows → In a ts × (is_eligible ts before a ≡ true)
  pub single :
      (a b : Task) (k : String)
      → In a rows
      → In b rows
      → a.ordering_key ≡ some k
      → b.ordering_key ≡ some k
      → a ≡ b
  pub first :
      (a u : Task) (k : String)
      → In a rows
      → In u ts
      → is_eligible ts before u ≡ true
      → a.ordering_key ≡ some k
      → u.ordering_key ≡ some k
      → a.next_run_at ≤ℤ u.next_run_at
  pub complete :
      (u : Task)
      → In u ts
      → is_eligible ts before u ≡ true
      → In u rows
        ⊎ ((a : Task) × (k : String) × In a rows
            × (a.ordering_key ≡ some k)
            × (u.ordering_key ≡ some k))
        ⊎ ((length rows ≡ limit) × ((b : Task) → In b rows → b.next_run_at ≤ℤ u.next_run_at))

-- An eligible row, by the row that is selected for it.
answered_for :
    (limit : ℕ) (ts : List Task) (before : DateTime) (u : Task)
    → In u ts
    → is_eligible ts before u ≡ true
    → let rows = take limit (sort_by_run (selected ts before)) in
      In u rows
      ⊎ ((a : Task) × (k : String) × In a rows
          × (a.ordering_key ≡ some k)
          × (u.ordering_key ≡ some k))
      ⊎ ((length rows ≡ limit) × ((b : Task) → In b rows → b.next_run_at ≤ℤ u.next_run_at))
answered_for limit ts before u i e =
    let all = selected ts before in
    let sorted = sort_by_run-IsSorted all in
    elim (selected_complete ts before u i e) [
      | inl j ↦ elim (In-take_or_full limit (sort_by_run all) u sorted (In-sort_back all u j)) [
        | inl k ↦ inl k
        | inr full ↦ inr (inr full)
      ]
      | inr (a, k, j, ka, ku) ↦
          elim (In-take_or_full limit (sort_by_run all) a sorted (In-sort_back all a j)) [
            | inl m ↦ inr (inl (a, k, m, ka, ku))
            | inr (count, later) ↦
                let le = selected_first ts before a u k j i e ka ku in
                inr (inr (count, λ b m. let l = later b m in omega arith))
          ]
    ]

answered :
    (limit : ℕ) (before : DateTime) (db : Db) (rows : List Task)
    → find_pending limit before db ≡ ok (rows, db)
    → take limit (sort_by_run (selected db.tasks before)) ≡ rows
unfolding find_pending
answered limit before db rows e = ground arith

-- The rows that `find_pending` answers are at most `limit`, in the order of their next runs; each is
-- a row of the table that is pending, due and not blocked by a row in progress; of each ordering key
-- there is one at most, and it runs no later than any other eligible row of its key. No eligible row
-- is passed over: it is answered, or another one of its key is, or there are `limit` rows, none of
-- which runs later than it.
pub find_pending-IsBatch :
    (limit : ℕ) (before : DateTime) (db : Db) (rows : List Task)
    → find_pending limit before db ≡ ok (rows, db)
    → IsBatch limit before db.tasks rows
find_pending-IsBatch limit before db rows e =
    let all = selected db.tasks before in
    let was : (a : Task) → In a (take limit (sort_by_run all)) → In a all =
      λ a i. In-sort_by_run all a (In-take limit (sort_by_run all) a i) in
    subst (IsBatch limit before db.tasks) (answered limit before db rows e) (record {
      bounded = take-length limit (sort_by_run all);
      sorted = take-IsSorted limit (sort_by_run all) (sort_by_run-IsSorted all);
      eligible = λ a i. In-selected db.tasks before a (was a i);
      single = λ a b k i j. selected_unique db.tasks before a b k (was a i) (was b j);
      first = λ a u k i. selected_first db.tasks before a u k (was a i);
      complete = λ u. answered_for limit db.tasks before u;
    })
