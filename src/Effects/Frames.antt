-- ===== src/Effects/Frames.antt =====
-- What a call leaves alone, and what a call that succeeded has changed.
use benri_stream.Prelude.{Option, [], ◌∷◌, ◌++◌, ◌≡◌, ◌≢◌, refl, arith, eqb, find}
use benri_stream.Platform.{Result, ok, err}
use benri_stream.Task.Scheduler.{RepositoryError}
use benri_stream.Db.Tables.{Db, Stmt}
use benri_stream.Video.{Video, VideoId}
use benri_stream.Db.Videos
use benri_stream.Effects.Ports.{
  Env, World, Turn, Fault, no_fault, lost_request, lost_reply, StorageError, StorageCall,
}
use benri_stream.Effects.Database.{statement, tx_statement, settle, storage_call, record_call}

module _ (env : Env) where
  settle-rest :
      {A : Type 0} (w : World) (db : Db) (x : Fault) (r : Result RepositoryError (A × Db))
      → ((settle env w db x r).1.storage ≡ w.storage) × ((settle env w db x r).1.queue ≡ w.queue)
  settle-rest w db (lost_request e) r = (refl, refl)
  settle-rest w db no_fault (ok (a, db')) = (refl, refl)
  settle-rest w db no_fault (err e) = (refl, refl)
  settle-rest w db (lost_reply e) (ok (a, db')) = (refl, refl)
  settle-rest w db (lost_reply e) (err e') = (refl, refl)

  -- A statement touches neither the storage nor the queue.
  pub statement-rest :
      {A : Type 0} (s : Turn → Stmt A) (w : World)
      → ((statement env s w).1.storage ≡ w.storage) × ((statement env s w).1.queue ≡ w.queue)
  unfolding statement
  statement-rest s w =
      let t = env w.turn in let db = t.interfere w.db in settle-rest w db t.fault (s t db)

  settle-ok :
      {A : Type 0} (w : World) (db : Db) (x : Fault) (a : A) (db' : Db) (b : A)
      → (settle env w db x (ok (a, db'))).0 ≡ ok b
      → (b ≡ a) × ((settle env w db x (ok (a, db'))).1.db ≡ db')
  settle-ok w db (lost_request e) a db' b h = absurd (ground arith)
  settle-ok w db no_fault a db' b h = (ground arith, refl)
  settle-ok w db (lost_reply e) a db' b h = absurd (ground arith)

  -- A statement that succeeded has taken effect.
  pub statement-ok :
      {A : Type 0} (s : Turn → Stmt A) (w : World) (a : A) (db' : Db) (b : A)
      → s (env w.turn) ((env w.turn).interfere w.db) ≡ ok (a, db')
      → (statement env s w).0 ≡ ok b
      → (b ≡ a) × ((statement env s w).1.db ≡ db')
  unfolding statement
  statement-ok s w a db' b e h =
      let db = (env w.turn).interfere w.db in
      rw e (settle-ok w db (env w.turn).fault a db' b (rw e at h))

  settle-err :
      {A : Type 0} (w : World) (db : Db) (x : Fault) (e : RepositoryError) (b : A)
      → (settle env w db x (err e)).0 ≢ ok b
  settle-err w db (lost_request e') e b h = absurd (ground arith)
  settle-err w db no_fault e b h = absurd (ground arith)
  settle-err w db (lost_reply e') e b h = absurd (ground arith)

  -- A statement that breaks a constraint does not succeed.
  pub statement-err :
      {A : Type 0} (s : Turn → Stmt A) (w : World) (e : RepositoryError) (b : A)
      → s (env w.turn) ((env w.turn).interfere w.db) ≡ err e
      → (statement env s w).0 ≢ ok b
  unfolding statement
  statement-err s w e b broken h =
      let db = (env w.turn).interfere w.db in
      settle-err w db (env w.turn).fault e b (rw broken at h)

  -- The same in a transaction.
  pub tx_statement-ok :
      {A : Type 0} (s : Turn → Stmt A) (w : World) (a : A) (db' : Db) (b : A)
      → s (env w.turn) w.db ≡ ok (a, db')
      → (tx_statement env s w).0 ≡ ok b
      → (b ≡ a) × ((tx_statement env s w).1.db ≡ db')
  unfolding tx_statement
  tx_statement-ok s w a db' b e h = rw e (settle-ok w w.db (env w.turn).fault a db' b (rw e at h))

  pub tx_statement-err :
      {A : Type 0} (s : Turn → Stmt A) (w : World) (e : RepositoryError) (b : A)
      → s (env w.turn) w.db ≡ err e
      → (tx_statement env s w).0 ≢ ok b
  unfolding tx_statement
  tx_statement-err s w e b broken h = settle-err w w.db (env w.turn).fault e b (rw broken at h)

  record_call-ok :
      (w : World) (c : StorageCall) (r : Result StorageError (Unit {0})) (u : Unit {0})
      → (record_call env w c r).0 ≡ ok u
      → (record_call env w c r).1.storage ≡ w.storage ++ c ∷ []
  record_call-ok w c (ok a) u e = refl
  record_call-ok w c (err x) u e = absurd (ground arith)

  -- A call to the storage that succeeded is recorded.
  pub storage_call-ok :
      (c : StorageCall) (w : World) (u : Unit {0})
      → (storage_call env c w).0 ≡ ok u
      → (storage_call env c w).1.storage ≡ w.storage ++ c ∷ []
  unfolding storage_call
  storage_call-ok c w u e = record_call-ok w c ((env w.turn).storage_done c) u e

-- The answer of a look-up by id.
pub found-find :
    (env : Env) (id : VideoId) (w : World) (found : Option Video)
    → (statement env (λ _. Videos.find_by_id id) w).0 ≡ ok found
    → found ≡ find (λ v. eqb v.id id) ((env w.turn).interfere w.db).videos
unfolding statement Videos.find_by_id
found-find env id w found e = ground arith
