-- ===== src/Db/Tasks/Completeness.antt =====
-- No eligible row is passed over by the CTEs of `find_pending` of
-- crates/infrastructure/src/postgres/task_repository.rs.
use benri_stream.Prelude.{
  String, true, not, some, List, [], ◌∷◌, ◌++◌, ◌≡◌, ◌⊎◌, inl, inr, refl, sym, ap, ◌∙◌, arith,
  eq_iff, any, keep, Bool-cases, Option-cases, In, here, there, In-cons, In-keep_back,
  In-append_left,
}
use benri_stream.Video.{DateTime}
use benri_stream.Task.Types.{Task}
use benri_stream.Db.Tasks.{
  same_key, is_keyed, is_eligible, sort_by_run, distinct_on, keyed_dedup, selected,
}
use benri_stream.Db.Tasks.Selection.{keyed_of}
use benri_stream.Db.Tasks.Sorting.{In-sort_back}

same_key-cases :
    (t u : Task) (k : String)
    → u.ordering_key ≡ some k
    → same_key u t ≡ true
    → t.ordering_key ≡ some k
same_key-cases t u k ku e = elim (Option-cases t.ordering_key) [
  | inl free ↦ absurd (cc (rw (ku, free) at e))
  | inr (j, kt) ↦ kt ∙ ap some ((eq_iff j k).0 (rw (ku, kt) at e))
]

In-append_right : (xs ys : List Task) (a : Task) → In a ys → In a (xs ++ ys)
In-append_right [] ys a i = i
In-append_right (x ∷ xs) ys a i = there (In-append_right xs ys a i)

-- Of each key in the rows, a row is taken or was seen.
distinct_on_complete :
    (seen ts : List Task) (u : Task) (k : String)
    → u.ordering_key ≡ some k
    → In u ts
    → (any (same_key u) seen ≡ true)
      ⊎ ((a : Task) × In a (distinct_on seen ts) × (a.ordering_key ≡ some k))
unfolding distinct_on
distinct_on_complete seen [] u k ku i = elim i [ ]
distinct_on_complete seen (t ∷ ts) u k ku i = elim (Bool-cases (any (same_key t) seen)) [
  | inl e ↦ rw e elim (In-cons i) [
    | inl same ↦ inl (rw same e)
    | inr j ↦ distinct_on_complete seen ts u k ku j
  ]
  | inr e ↦ rw e elim (In-cons i) [
    | inl same ↦ inr (t, here refl, rw (sym same) ku)
    | inr j ↦ elim (distinct_on_complete (t ∷ seen) ts u k ku j) [
      | inr (a, m, ka) ↦ inr (a, there m, ka)
      | inl s ↦ elim (Bool-cases (same_key u t)) [
        | inl with_t ↦ inr (t, here refl, same_key-cases t u k ku with_t)
        | inr other ↦ inl (rw other at s)
      ]
    ]
  ]
]

-- An eligible row is selected, or another row of its key.
pub selected_complete :
    (ts : List Task) (before : DateTime) (u : Task)
    → In u ts
    → is_eligible ts before u ≡ true
    → In u (selected ts before)
      ⊎ ((a : Task) × (k : String) × In a (selected ts before)
          × (a.ordering_key ≡ some k)
          × (u.ordering_key ≡ some k))
unfolding selected keyed_dedup
selected_complete ts before u i e =
    let rows = keep (is_eligible ts before) ts in
    let j = In-keep_back (is_eligible ts before) ts u i e in
    elim (Option-cases u.ordering_key) [
      | inl free ↦ inl (
          In-append_right (keyed_dedup rows) (keep (λ t. not (is_keyed t)) rows) u
            (In-keep_back (λ t. not (is_keyed t)) rows u j (ground (arith, free))))
      | inr (k, ku) ↦
          elim (distinct_on_complete [] (sort_by_run (keep is_keyed rows)) u k ku (
            In-sort_back (keep is_keyed rows) u
              (In-keep_back is_keyed rows u j (keyed_of u k ku)))) [
                | inl s ↦ absurd (cc)
                | inr (a, m, ka) ↦ inr (
                  a,
                  k,
                  In-append_left (keyed_dedup rows) (keep (λ t. not (is_keyed t)) rows) a m,
                  ka,
                  ku,
                )
              ]
    ]
