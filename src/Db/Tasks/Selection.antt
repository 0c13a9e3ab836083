-- ===== src/Db/Tasks/Selection.antt =====
-- The CTEs of `find_pending` of crates/infrastructure/src/postgres/task_repository.rs, row by row.
use benri_stream.Prelude.{
  String, Bool, true, false, not, ◌&&◌, ◌||◌, some, List, [], ◌∷◌, ◌≡◌, sym, ap, ◌∙◌, ◌≢◌, ◌⊎◌, inl,
  inr, arith, eq_iff, any, keep, Bool-cases, In, here, there, In-cons, In-keep, In-append,
  any_of_In,
}
use benri_stream.Video.{DateTime}
use benri_stream.Task.Status.{status_eq, in_progress}
use benri_stream.Task.Types.{Task}
use benri_stream.Db.Tasks.{
  has_key, same_key, runs_before, is_keyed, is_blocked, is_eligible, insert_sorted, sort_by_run,
  distinct_on, keyed_dedup, selected,
}

pub In-insert_sorted :
    (t : Task) (us : List Task) (a : Task) → In a (insert_sorted t us) → (a ≡ t) ⊎ In a us
unfolding insert_sorted
In-insert_sorted t [] a i = In-cons i
In-insert_sorted t (u ∷ us) a i = elim (Bool-cases (runs_before t u)) [
  | inl e ↦ In-cons (rw e at i)
  | inr e ↦ elim (In-cons (rw e at i)) [
    | inl same ↦ inr (here same)
    | inr j ↦ elim (In-insert_sorted t us a j) [ inl same ↦ inl same | inr k ↦ inr (there k) ]
  ]
]

pub In-sort_by_run : (ts : List Task) (a : Task) → In a (sort_by_run ts) → In a ts
unfolding sort_by_run
In-sort_by_run [] a i = i
In-sort_by_run (t ∷ ts) a i = elim (In-insert_sorted t (sort_by_run ts) a i) [
  | inl e ↦ here e
  | inr j ↦ there (In-sort_by_run ts a j)
]

pub same_key_of :
    (t u : Task) (k : String)
    → t.ordering_key ≡ some k
    → u.ordering_key ≡ some k
    → same_key t u ≡ true
same_key_of t u k e f = ground (arith, eq_iff k k)

or_false : (a b : Bool) → (a || b) ≡ false → (a ≡ false) × (b ≡ false)
or_false a b h = ground arith

-- The head is skipped, or is taken and seen by the rest.
pub distinct_on_cases :
    (seen ts : List Task) (t a : Task)
    → In a (distinct_on seen (t ∷ ts))
    → In a (distinct_on seen ts)
      ⊎ (any (same_key t) seen ≡ false) × ((a ≡ t) ⊎ In a (distinct_on (t ∷ seen) ts))
unfolding distinct_on
distinct_on_cases seen ts t a i = elim (Bool-cases (any (same_key t) seen)) [
  | inl e ↦ inl (rw e at i)
  | inr e ↦ inr (e, In-cons (rw e at i))
]

pub In-distinct_on :
    (seen ts : List Task) (a : Task)
    → In a (distinct_on seen ts)
    → In a ts × (any (same_key a) seen ≡ false)
unfolding distinct_on
In-distinct_on seen [] a i = elim i [ ]
In-distinct_on seen (t ∷ ts) a i = elim (distinct_on_cases seen ts t a i) [
  | inl j ↦ let (k, e) = In-distinct_on seen ts a j in (there k, e)
  | inr (new, j) ↦ elim j [
    | inl same ↦ (here same, rw same new)
    | inr k ↦
        let (m, e) = In-distinct_on (t ∷ seen) ts a k in
        (there m, (or_false (same_key a t) (any (same_key a) seen) e).1)
  ]
]

pub later_differs :
    (seen ts : List Task) (t b : Task) (k : String)
    → In b (distinct_on (t ∷ seen) ts)
    → t.ordering_key ≡ some k
    → b.ordering_key ≢ some k
later_differs seen ts t b k j kt kb =
    let e = (In-distinct_on (t ∷ seen) ts b j).1 in
    let differs = (or_false (same_key b t) (any (same_key b) seen) e).0 in
    cc (same_key_of b t k kb kt)

-- Two rows of one key in the result are one row.
pub distinct_on_unique :
    (seen ts : List Task) (a b : Task) (k : String)
    → In a (distinct_on seen ts)
    → In b (distinct_on seen ts)
    → a.ordering_key ≡ some k
    → b.ordering_key ≡ some k
    → a ≡ b
unfolding distinct_on
distinct_on_unique seen [] a b k i j ka kb = elim i [ ]
distinct_on_unique seen (t ∷ ts) a b k i j ka kb = elim (Bool-cases (any (same_key t) seen)) [
  | inl e ↦ distinct_on_unique seen ts a b k (rw e at i) (rw e at j) ka kb
  | inr e ↦ elim (In-cons (rw e at i)) [
    | inl ta ↦ elim (In-cons (rw e at j)) [
      | inl tb ↦ ta ∙ sym tb
      | inr j' ↦ absurd (later_differs seen ts t b k j' (rw (← ta) ka) kb)
    ]
    | inr i' ↦ elim (In-cons (rw e at j)) [
      | inl tb ↦ absurd (later_differs seen ts t a k i' (rw (← tb) kb) ka)
      | inr j' ↦ distinct_on_unique (t ∷ seen) ts a b k i' j' ka kb
    ]
  ]
]

pub keyed_of : (t : Task) (k : String) → t.ordering_key ≡ some k → is_keyed t ≡ true
keyed_of t k e = ground arith

-- A selected row is a row of the table, and is eligible.
pub In-selected :
    (ts : List Task) (before : DateTime) (a : Task)
    → In a (selected ts before)
    → In a ts × (is_eligible ts before a ≡ true)
unfolding selected keyed_dedup
In-selected ts before a i =
    let rows = keep (is_eligible ts before) ts in
    elim (In-append (keyed_dedup rows) (keep (λ t. not (is_keyed t)) rows) a i) [
      | inl j ↦
          In-keep (is_eligible ts before) ts a
            (In-keep is_keyed rows a (
              In-sort_by_run (keep is_keyed rows) a
                (In-distinct_on [] (sort_by_run (keep is_keyed rows)) a j).0)).0
      | inr j ↦ In-keep (is_eligible ts before) ts a (In-keep (λ t. not (is_keyed t)) rows a j).0
    ]

pub In-selected_keyed :
    (ts : List Task) (before : DateTime) (a : Task) (k : String)
    → In a (selected ts before)
    → a.ordering_key ≡ some k
    → In a (keyed_dedup (keep (is_eligible ts before) ts))
unfolding selected
In-selected_keyed ts before a k i ka =
    let rows = keep (is_eligible ts before) ts in
    elim (In-append (keyed_dedup rows) (keep (λ t. not (is_keyed t)) rows) a i) [
      | inl j ↦ j
      | inr j ↦
          let unkeyed = (In-keep (λ t. not (is_keyed t)) rows a j).1 in
          absurd (cc (keyed_of a k ka, ap not (keyed_of a k ka)))
    ]

-- Of each ordering key, one row at most is selected.
pub selected_unique :
    (ts : List Task) (before : DateTime) (a b : Task) (k : String)
    → In a (selected ts before)
    → In b (selected ts before)
    → a.ordering_key ≡ some k
    → b.ordering_key ≡ some k
    → a ≡ b
unfolding keyed_dedup
selected_unique ts before a b k i j ka kb =
    distinct_on_unique [] (sort_by_run (keep is_keyed (keep (is_eligible ts before) ts))) a b k
      (In-selected_keyed ts before a k i ka) (In-selected_keyed ts before b k j kb) ka kb

blocked_of :
    (ts : List Task) (a u : Task) (k : String)
    → a.ordering_key ≡ some k
    → In u ts
    → u.status ≡ in_progress
    → u.ordering_key ≡ some k
    → is_blocked ts a ≡ true
unfolding is_blocked
blocked_of ts a u k ka i su ku =
    rw (ka, is_blocked)
      (any_of_In (λ v. status_eq v.status in_progress && has_key k v) ts u i
        (ground (arith, eq_iff k k)))

-- No row in progress has the key of an eligible row.
pub eligible-free :
    (ts : List Task) (before : DateTime) (a u : Task) (k : String)
    → is_eligible ts before a ≡ true
    → a.ordering_key ≡ some k
    → In u ts
    → u.status ≡ in_progress
    → u.ordering_key ≢ some k
unfolding is_eligible
eligible-free ts before a u k h ka i su ku =
    let blocked = blocked_of ts a u k ka i su ku in ground arith
