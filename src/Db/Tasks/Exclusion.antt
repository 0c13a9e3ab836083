-- ===== src/Db/Tasks/Exclusion.antt =====
-- Unique ids and exclusive ordering keys under the statements of
-- crates/infrastructure/src/postgres/task_repository.rs.
use benri_stream.Prelude.{
  String, Bool, true, List, [], ◌∷◌, some, ◌≡◌, refl, sym, ap, ◌∙◌, ◌≢◌, ◌⊎◌, inl, inr,
  if◌then◌else◌, map, update_where, eqb, eqb_iff, Bool-cases, In, here, there, In-map,
  In-update_where, In-of_any, All, All-in,
}
use benri_stream.Video.{DateTime}
use benri_stream.Task.Status.{in_progress}
use benri_stream.Task.Types.{Task, TaskId}
use benri_stream.Db.Tasks.{has_id, start_task, selected}
use benri_stream.Db.Tasks.Selection.{In-selected, selected_unique, eligible-free}

abbrev pub UniqueIds : List Task → Type 0
UniqueIds [] = Unit
UniqueIds (t ∷ ts) = All (λ u. u.id ≢ t.id) ts × UniqueIds ts

-- Two rows in progress with one ordering key are one row.
abbrev pub IsExclusive : List Task → Type 0
IsExclusive ts =
    (t u : Task) (k : String)
    → In t ts
    → In u ts
    → t.status ≡ in_progress
    → u.status ≡ in_progress
    → t.ordering_key ≡ some k
    → u.ordering_key ≡ some k
    → t.id ≡ u.id

pub record IsConsistent (ts : List Task) : Type 0 where
  pub unique : UniqueIds ts
  pub exclusive : IsExclusive ts

pub unique-In :
    (ts : List Task) (t u : Task) → UniqueIds ts → In t ts → In u ts → t.id ≡ u.id → t ≡ u
unique-In [] t u h i j e = elim i [ ]
unique-In (x ∷ xs) t u h (here a) (here b) e = a ∙ sym b
unique-In (x ∷ xs) t u h (here a) (there j) e =
    absurd (All-in (λ v. v.id ≢ x.id) xs u h.0 j (sym e ∙ ap (λ (v : Task). v.id) a))
unique-In (x ∷ xs) t u h (there i) (here b) e =
    absurd (All-in (λ v. v.id ≢ x.id) xs t h.0 i (e ∙ ap (λ (v : Task). v.id) b))
unique-In (x ∷ xs) t u h (there i) (there j) e = unique-In xs t u h.1 i j e

-- An update that keeps the ids.
module _ (test : Task → Bool) (change : Task → Task)
    (same_id : (t : Task) → (change t).id ≡ t.id) where
  row_id : (t : Task) → (if test t then change t else t).id ≡ t.id
  row_id t = elim (Bool-cases (test t)) [ inl e ↦ rw e (same_id t) | inr e ↦ rw e refl ]

  All-update_where :
      (id : TaskId) (ts : List Task)
      → All (λ u. u.id ≢ id) ts
      → All (λ u. u.id ≢ id) (update_where test change ts)
  All-update_where id [] h = tt
  All-update_where id (t ∷ ts) h = ((λ e. h.0 (sym (row_id t) ∙ e)), All-update_where id ts h.1)

  pub update_where-UniqueIds :
      (ts : List Task) → UniqueIds ts → UniqueIds (update_where test change ts)
  update_where-UniqueIds [] h = tt
  update_where-UniqueIds (t ∷ ts) h =
      (rw (row_id t) (All-update_where t.id ts h.0), update_where-UniqueIds ts h.1)

  -- If no changed row is in progress, the others are as exclusive as before.
  pub update_where-IsExclusive :
      (ts : List Task)
      → ((t : Task) → test t ≡ true → (change t).status ≢ in_progress)
      → IsExclusive ts
      → IsExclusive (update_where test change ts)
  update_where-IsExclusive ts stops h a b k i j sa sb ka kb =
      let (t, t_in, ta) = In-update_where test change ts a i in
      let (u, u_in, ub) = In-update_where test change ts b j in
      let t_same : a ≡ t = unchanged t a ta sa in
      let u_same : b ≡ u = unchanged u b ub sb in
      h a b k (rw t_same t_in) (rw u_same u_in) sa sb ka kb
    where
      unchanged :
          (t a : Task) → a ≡ (if test t then change t else t) → a.status ≡ in_progress → a ≡ t
      unchanged t a e s = elim (Bool-cases (test t)) [
        | inl c ↦ absurd (stops t c (sym (ap (λ (v : Task). v.status) (rw c at e)) ∙ s))
        | inr c ↦ rw c at e
      ]

-- The rows that `find_pending` returns are marked in progress by their ids.
module _ (ts : List Task) (before : DateTime) (rows : List Task)
    (chosen : (a : Task) → In a rows → In a (selected ts before)) where
  abbrev ids : List TaskId
  ids = map (λ t. t.id) rows

  -- A row of the table with one of the ids is a selected row.
  marked : UniqueIds ts → (t : Task) → In t ts → has_id ids t.id ≡ true → In t (selected ts before)
  marked h t i m =
      let (id, id_in, same) = In-of_any (λ j. eqb t.id j) ids m in
      let (row, row_in, named) = In-map (λ (r : Task). r.id) rows id id_in in
      let sel = chosen row row_in in
      let t_row : t ≡ row =
        unique-In ts t row h i (In-selected ts before row sel).0 ((eqb_iff _ _).0 same ∙ named) in
      rw t_row sel

  -- Where a row in progress comes from: it was selected, or it was in progress before.
  abbrev Origin : Task → Type 0
  Origin a =
      (t : Task) × In t ts
      × (a.id ≡ t.id)
      × (a.ordering_key ≡ t.ordering_key)
      × (In t (selected ts before) ⊎ (t.status ≡ in_progress))

  origin :
      (now : DateTime) (a : Task)
      → UniqueIds ts
      → In a (update_where (λ t. has_id ids t.id) (start_task now) ts)
      → a.status ≡ in_progress
      → Origin a
  origin now a h i s =
      let (t, t_in, e) = In-update_where (λ t. has_id ids t.id) (start_task now) ts a i in
      elim (Bool-cases (has_id ids t.id)) [
        | inl m ↦
            let started : a ≡ start_task now t = (rw m at e) in
            (
              t,
              t_in,
              ap (λ (r : Task). r.id) started,
              ap (λ (r : Task). r.ordering_key) started,
              inl (marked h t t_in m),
            )
        | inr m ↦
            let same : a ≡ t = (rw m at e) in
            (
              t,
              t_in,
              ap (λ (r : Task). r.id) same,
              ap (λ (r : Task). r.ordering_key) same,
              inr (sym (ap (λ (r : Task). r.status) same) ∙ s),
            )
      ]

  selected_blocks :
      (t u : Task) (k : String)
      → In t (selected ts before)
      → In u ts
      → u.status ≡ in_progress
      → t.ordering_key ≡ some k
      → u.ordering_key ≢ some k
  selected_blocks t u k i j s kt =
      eligible-free ts before t u k (In-selected ts before t i).1 kt j s

  pub mark-IsExclusive :
      (now : DateTime)
      → IsConsistent ts
      → IsExclusive (update_where (λ t. has_id ids t.id) (start_task now) ts)
  mark-IsExclusive now c a b k i j sa sb ka kb =
      let (t, t_in, ta, tk, t_from) = origin now a c.unique i sa in
      let (u, u_in, ub, uk, u_from) = origin now b c.unique j sb in
      let kt : t.ordering_key ≡ some k = sym tk ∙ ka in
      let ku : u.ordering_key ≡ some k = sym uk ∙ kb in
      let same : t.id ≡ u.id = elim t_from [
        | inl t_sel ↦ elim u_from [
          | inl u_sel ↦ ap (λ (r : Task). r.id) (selected_unique ts before t u k t_sel u_sel kt ku)
          | inr u_runs ↦ absurd (selected_blocks t u k t_sel u_in u_runs kt ku)
        ]
        | inr t_runs ↦ elim u_from [
          | inl u_sel ↦ absurd (selected_blocks u t k u_sel t_in t_runs ku kt)
          | inr u_runs ↦ c.exclusive t u k t_in u_in t_runs u_runs kt ku
        ]
      ] in
      ta ∙ same ∙ sym ub
