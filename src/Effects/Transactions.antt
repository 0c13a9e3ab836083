-- ===== src/Effects/Transactions.antt =====
-- The laws of `PgTransactionPort::run` of crates/infrastructure/src/postgres/transaction.rs.
use benri_stream.Prelude.{◌+◌, ◌≡◌, refl, ◌⊎◌, inl, inr, arith}
use benri_stream.Platform.{Result, ok, err}
use benri_stream.Task.Scheduler.{RepositoryError}
use benri_stream.Effects.Ports.{Env, World, M, Fault, no_fault, lost_request, lost_reply}
use benri_stream.Effects.Database.{run, commit, finish, begin}

-- The world in which the closure of a transaction starts: the tables as the others left them.
abbrev pub begun : Env → World → World
begun env w = record w { db = (env w.turn).interfere w.db; turn = w.turn + 1 }

module _ {A : Type 0} (env : Env) (f : M RepositoryError A) (w : World) where
  -- If the transaction succeeds, then so did its closure, with the same result, and the tables are
  -- those that the closure left.
  pub run-ok :
      (a : A)
      → (run env f w).0 ≡ ok a
      → ((f (begun env w)).0 ≡ ok a) × ((run env f w).1.db ≡ (f (begun env w)).1.db)
  unfolding run
  run-ok a e = ground arith

  commit_atomic :
      (x : Fault) (before : World) (a : A) (w' : World)
      → ((commit env x before a w').1.db ≡ before.db) ⊎ ((commit env x before a w').1.db ≡ w'.db)
  commit_atomic no_fault before a w' = inr refl
  commit_atomic (lost_reply e) before a w' = inr refl
  commit_atomic (lost_request e) before a w' = inl refl

  finish_atomic :
      (before : World) (r : Result RepositoryError A) (w' : World)
      → ((finish env before (r, w')).1.db ≡ before.db)
        ⊎ ((a : A) × (r ≡ ok a) × ((finish env before (r, w')).1.db ≡ w'.db))
  finish_atomic before (err e) w' = inl refl
  finish_atomic before (ok a) w' = elim (commit_atomic (env w'.turn).fault before a w') [
    | inl same ↦ inl same
    | inr new ↦ inr (a, refl, new)
  ]

  begin_atomic :
      (x : Fault) (before : World)
      → ((begin env x before f).1.db ≡ before.db)
        ⊎ ((a : A) × ((f before).0 ≡ ok a) × ((begin env x before f).1.db ≡ (f before).1.db))
  begin_atomic no_fault before = let (r, w') = f before in finish_atomic before r w'
  begin_atomic (lost_request e) before = inl refl
  begin_atomic (lost_reply e) before = inl refl

  -- Whatever it answers, the tables are as they were at its start, or the closure succeeded and
  -- they are those that it left.
  pub run_atomic :
      ((run env f w).1.db ≡ (begun env w).db)
      ⊎ ((a : A) × ((f (begun env w)).0 ≡ ok a) × ((run env f w).1.db ≡ (f (begun env w)).1.db))
  unfolding run
  run_atomic = begin_atomic (env w.turn).fault (begun env w)
