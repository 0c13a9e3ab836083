-- ===== src/Db/Tasks/Sorting.antt =====
-- The ORDER BY and the LIMIT of `find_pending` of
-- crates/infrastructure/src/postgres/task_repository.rs.
use benri_stream.Prelude.{
  ℕ, suc, zero, ◌≤◌, true, false, List, [], ◌∷◌, ◌≡◌, ◌⊎◌, refl, ap, inl, inr, arith, take, length,
  In, here, there, Bool-cases, ◌≤ℤ◌, In-cons, In-take,
}
use benri_stream.Task.Types.{Task}
use benri_stream.Db.Tasks.{runs_before, insert_sorted, sort_by_run}
use benri_stream.Db.Tasks.Selection.{In-insert_sorted}

-- Each row runs no later than those behind it.
abbrev pub IsSorted : List Task → Type 0
IsSorted [] = Unit {0}
IsSorted (t ∷ ts) = ((u : Task) → In u ts → t.next_run_at ≤ℤ u.next_run_at) × IsSorted ts

In-insert_back :
    (t : Task) (us : List Task) (a : Task) → (a ≡ t) ⊎ In a us → In a (insert_sorted t us)
unfolding insert_sorted
In-insert_back t [] a (inl e) = here e
In-insert_back t [] a (inr i) = elim i [ ]
In-insert_back t (u ∷ us) a h = elim (Bool-cases (runs_before t u)) [
  | inl e ↦ rw e (elim h [ inl s ↦ here s | inr i ↦ there i ])
  | inr e ↦ rw e (elim h [
    | inl s ↦ there (In-insert_back t us a (inl s))
    | inr i ↦ elim (In-cons i) [ inl s ↦ here s | inr j ↦ there (In-insert_back t us a (inr j)) ]
  ])
]

pub In-sort_back : (ts : List Task) (a : Task) → In a ts → In a (sort_by_run ts)
unfolding sort_by_run
In-sort_back [] a i = i
In-sort_back (t ∷ ts) a i = elim (In-cons i) [
  | inl s ↦ In-insert_back t (sort_by_run ts) a (inl s)
  | inr j ↦ In-insert_back t (sort_by_run ts) a (inr (In-sort_back ts a j))
]

runs_first : (t u : Task) → runs_before t u ≡ true → t.next_run_at ≤ℤ u.next_run_at
unfolding runs_before
runs_first t u e = ground arith

runs_later : (t u : Task) → runs_before t u ≡ false → u.next_run_at ≤ℤ t.next_run_at
unfolding runs_before
runs_later t u e = ground arith

insert_sorted-IsSorted : (t : Task) (us : List Task) → IsSorted us → IsSorted (insert_sorted t us)
unfolding insert_sorted
insert_sorted-IsSorted t [] h = (λ v i. elim i [ ], tt)
insert_sorted-IsSorted t (u ∷ us) (first, rest) = elim (Bool-cases (runs_before t u)) [
  | inl e ↦ rw e (
    λ v i. elim (In-cons i) [
      | inl s ↦ rw s (runs_first t u e)
      | inr j ↦ let le = runs_first t u e in let next = first v j in omega arith
    ],
    (first, rest),
  )
  | inr e ↦ rw e (
    λ v i. elim (In-insert_sorted t us v i) [ inl s ↦ rw s (runs_later t u e) | inr j ↦ first v j ],
    insert_sorted-IsSorted t us rest,
  )
]

pub sort_by_run-IsSorted : (ts : List Task) → IsSorted (sort_by_run ts)
unfolding sort_by_run
sort_by_run-IsSorted [] = tt
sort_by_run-IsSorted (t ∷ ts) = insert_sorted-IsSorted t (sort_by_run ts) (sort_by_run-IsSorted ts)

pub take-IsSorted : (n : ℕ) (ts : List Task) → IsSorted ts → IsSorted (take n ts)
take-IsSorted zero ts h = tt
take-IsSorted (suc n) [] h = tt
take-IsSorted (suc n) (t ∷ ts) (first, rest) =
    (λ u i. first u (In-take n ts u i), take-IsSorted n ts rest)

pub take-length : (n : ℕ) (ts : List Task) → length (take n ts) ≤ n
take-length zero ts = omega arith
take-length (suc n) [] = omega arith
take-length (suc n) (t ∷ ts) = let rest = take-length n ts in omega arith

-- A row is among the first `n`, or these are `n`, and run no later.
pub In-take_or_full :
    (n : ℕ) (ts : List Task) (r : Task)
    → IsSorted ts
    → In r ts
    → In r (take n ts)
      ⊎ ((length (take n ts) ≡ n)
          × ((b : Task) → In b (take n ts) → b.next_run_at ≤ℤ r.next_run_at))
In-take_or_full zero ts r h i = inr (refl, λ b j. elim j [ ])
In-take_or_full (suc n) [] r h i = elim i [ ]
In-take_or_full (suc n) (t ∷ ts) r (first, rest) i = elim (In-cons i) [
  | inl e ↦ inl (here e)
  | inr j ↦ elim (In-take_or_full n ts r rest j) [
    | inl k ↦ inl (there k)
    | inr (count, later) ↦
        inr (ap suc count, λ b k. elim (In-cons k) [ inl e ↦ rw e (first r j) | inr m ↦ later b m ])
  ]
]
