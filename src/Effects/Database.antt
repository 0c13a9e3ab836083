-- ===== src/Effects/Database.antt =====
-- Statements and transactions: the pool-backed calls, and `PgTransactionPort::run` of
-- crates/infrastructure/src/postgres/transaction.rs.
use benri_stream.Prelude.{◌+◌, ◌∷◌, [], ◌++◌}
use benri_stream.Platform.{Result, ok, err}
use benri_stream.Task.Scheduler.{RepositoryError, database}
use benri_stream.Db.Tables.{Db, Stmt}
use benri_stream.Effects.Ports.{
  Env, World, Turn, M, Fault, no_fault, lost_request, lost_reply, StorageError, StorageCall,
}

module _ (env : Env) where
  -- One call: its turn, and the world behind it.
  abbrev pub turn : {E : Type 0} → M E Turn
  turn w = (ok (env w.turn), record w { turn = w.turn + 1 })

  abbrev with_db : World → Db → World
  with_db w db = record w { db = db; turn = w.turn + 1 }

  -- What the caller gets and what the tables become when the statement has this outcome.
  abbrev pub settle :
      {A : Type 0}
      → World
      → Db
      → Fault
      → Result RepositoryError (A × Db)
      → Result RepositoryError A × World
  settle w db (lost_request e) r = (err (database e), with_db w db)
  settle w db no_fault (ok (a, db')) = (ok a, with_db w db')
  settle w db no_fault (err e) = (err e, with_db w db)
  settle w db (lost_reply e) (ok (a, db')) = (err (database e), with_db w db')
  settle w db (lost_reply e) (err e') = (err (database e), with_db w db)

  -- A statement on its own, with the tables as the others have left them.
  unfoldable pub statement : {A : Type 0} → (Turn → Stmt A) → M RepositoryError A
  statement s w = let t = env w.turn in let db = t.interfere w.db in settle w db t.fault (s t db)

  -- A statement in a transaction. Others do not come between the statements of one transaction:
  -- the rows that it reads are those that it locks or adds. After a fault it is rolled back.
  unfoldable pub tx_statement : {A : Type 0} → (Turn → Stmt A) → M RepositoryError A
  tx_statement s w = let t = env w.turn in settle w w.db t.fault (s t w.db)

  module _ {A : Type 0} where
    -- COMMIT: the tables of the transaction become the tables, or those before it stay.
    abbrev pub commit : Fault → World → A → World → Result RepositoryError A × World
    commit no_fault before a w = (ok a, record w { turn = w.turn + 1 })
    commit (lost_reply e) before a w = (err (database e), record w { turn = w.turn + 1 })
    commit (lost_request e) before a w =
        (err (database e), record w { db = before.db; turn = w.turn + 1 })

    abbrev pub finish : World → Result RepositoryError A × World → Result RepositoryError A × World
    finish before (ok a, w) = commit (env w.turn).fault before a w
    finish before (err e, w) = (err e, record w { db = before.db })

    abbrev pub begin : Fault → World → M RepositoryError A → Result RepositoryError A × World
    begin no_fault w f = finish w (f w)
    begin (lost_request e) w f = (err (database e), w)
    begin (lost_reply e) w f = (err (database e), w)

    -- The closure `f` runs on the transaction's own tables. Its result stands for the variable that
    -- the closure captures, which the callers read after a commit only.
    unfoldable pub run : M RepositoryError A → M RepositoryError A
    run f w =
        let t = env w.turn in
        begin t.fault (record w { db = t.interfere w.db; turn = w.turn + 1 }) f

  -- A call that changes the storage: it is recorded if it succeeds.
  abbrev pub record_call :
      World → StorageCall → Result StorageError (Unit {0}) → Result StorageError (Unit {0}) × World
  record_call w c (ok a) = (ok tt, record w { storage = w.storage ++ c ∷ []; turn = w.turn + 1 })
  record_call w c (err e) = (err e, record w { turn = w.turn + 1 })

  unfoldable pub storage_call : StorageCall → M StorageError (Unit {0})
  storage_call c w = record_call w c ((env w.turn).storage_done c)
