-- ===== src/Db/Tasks/Growth.antt =====
-- New rows in the table `tasks`: `create` and `bulk_create` of
-- crates/infrastructure/src/postgres/task_repository.rs.
use benri_stream.Prelude.{
  Bool, true, false, not, ◌&&◌, List, [], ◌∷◌, ◌++◌, ◌≡◌, ◌≢◌, inl, inr, arith, any, eqb, eqb_iff,
  In-append, All, All-in,
}
use benri_stream.Task.Status.{in_progress}
use benri_stream.Task.Types.{Task, TaskId}
use benri_stream.Db.Tasks.{all_new}
use benri_stream.Db.Tasks.Exclusion.{UniqueIds, IsExclusive, IsConsistent}

abbrev Apart : List Task → Task → Type 0
Apart us t = All (λ u. u.id ≢ t.id) us

not_any :
    (id : TaskId) (rows : List Task)
    → any (λ u. eqb u.id id) rows ≡ false
    → All (λ w. id ≢ w.id) rows
not_any id [] h = tt
not_any id (w ∷ rows) h = (ground (arith, eqb_iff w.id id), not_any id rows (ground arith))

and_true : (a b : Bool) → (not a && b) ≡ true → (a ≡ false) × (b ≡ true)
and_true a b h = ground arith

zip :
    (u : Task) (us rows : List Task)
    → All (λ w. u.id ≢ w.id) rows
    → All (Apart us) rows
    → All (Apart (u ∷ us)) rows
zip u us [] h k = tt
zip u us (w ∷ rows) h k = ((h.0, k.0), zip u us rows h.1 k.1)

fresh-Apart : (rows us : List Task) → all_new rows us ≡ true → All (Apart us) rows × UniqueIds us
fresh-Apart rows [] h = (nothing rows, tt)
  where
    nothing : (rows : List Task) → All (Apart []) rows
    nothing [] = tt
    nothing (w ∷ rows) = (tt, nothing rows)
fresh-Apart rows (u ∷ us) h =
    let (fresh, rest) = and_true (any (λ w. eqb w.id u.id) rows) (all_new (u ∷ rows) us) h in
    let (apart, unique) = fresh-Apart (u ∷ rows) us rest in
    (zip u us rows (not_any u.id rows fresh) apart.1, (apart.0, unique))

All-append : (t : Task) (xs ys : List Task) → Apart xs t → Apart ys t → Apart (xs ++ ys) t
All-append t [] ys h k = k
All-append t (x ∷ xs) ys h k = (h.0, All-append t xs ys h.1 k)

append-Apart :
    (ts us : List Task) → UniqueIds ts → All (Apart us) ts → UniqueIds us → UniqueIds (ts ++ us)
append-Apart [] us h new k = k
append-Apart (t ∷ ts) us h new k = (All-append t ts us h.0 new.0, append-Apart ts us h.1 new.1 k)

pub append-UniqueIds :
    (ts us : List Task) → UniqueIds ts → all_new ts us ≡ true → UniqueIds (ts ++ us)
append-UniqueIds ts us h new =
    let (apart, unique) = fresh-Apart ts us new in append-Apart ts us h apart unique

-- Rows that are not in progress do not change what is exclusive.
pub append-IsExclusive :
    (ts us : List Task)
    → All (λ u. u.status ≢ in_progress) us
    → IsExclusive ts
    → IsExclusive (ts ++ us)
append-IsExclusive ts us idle h a b k i j sa sb ka kb = elim (In-append ts us a i) [
  | inl i' ↦ elim (In-append ts us b j) [
    | inl j' ↦ h a b k i' j' sa sb ka kb
    | inr j' ↦ absurd (All-in (λ (u : Task). u.status ≢ in_progress) us b idle j' sb)
  ]
  | inr i' ↦ absurd (All-in (λ (u : Task). u.status ≢ in_progress) us a idle i' sa)
]

pub append-IsConsistent :
    (ts us : List Task)
    → all_new ts us ≡ true
    → All (λ u. u.status ≢ in_progress) us
    → IsConsistent ts
    → IsConsistent (ts ++ us)
append-IsConsistent ts us new idle c = record {
  unique = append-UniqueIds ts us c.unique new;
  exclusive = append-IsExclusive ts us idle c.exclusive;
}
