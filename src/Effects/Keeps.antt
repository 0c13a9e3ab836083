-- ===== src/Effects/Keeps.antt =====
-- Computations that keep a property of the database, one rule for each way to build one.
use benri_stream.Prelude.{ℕ, Bool, true, false, ◌≡◌, refl, if◌then◌else◌, subst, sym, inl, inr}
use benri_stream.Platform.{Result, ok, err}
use benri_stream.Task.Scheduler.{RepositoryError}
use benri_stream.Db.Tables.{Db, Stmt, after}
use benri_stream.Effects.Ports.{
  Env, World, Turn, M, Fault, no_fault, lost_request, lost_reply, StorageError, StorageCall, pure,
  fail, lift, on_error, attempt, ◌>>=◌, ◌>>◌,
}
use benri_stream.Effects.Database.{
  turn, statement, tx_statement, run, storage_call, settle, record_call,
}
use benri_stream.Effects.Transactions.{begun, run_atomic}

-- `m` keeps `P`, whether it succeeds or fails.
pub record Keeps (P : Db → Type 0) {E A : Type 0} (m : M E A) : Type 0 where
  pub at : (w : World) → P w.db → P (m w).1.db

module _ {P : Db → Type 0} {E A : Type 0} where
  pub Keeps-pure : (a : A) → Keeps P (pure {E = E} a)
  Keeps-pure a = record { at = λ w h. h }

  pub Keeps-fail : (e : E) → Keeps P (fail {A = A} e)
  Keeps-fail e = record { at = λ w h. h }

  pub Keeps-lift : (r : Result E A) → Keeps P (lift r)
  Keeps-lift r = record { at = λ w h. h }

  pub Keeps-if :
      (test : Bool) (taken other : M E A)
      → Keeps P taken
      → Keeps P other
      → Keeps P (if test then taken else other)
  Keeps-if true taken other k _ = k
  Keeps-if false taken other _ k = k

  pub Keeps-on_error : {F : Type 0} (f : E → F) (m : M E A) → Keeps P m → Keeps P (on_error f m)
  Keeps-on_error f m k = record { at = λ w h. k.at w h }

  pub Keeps-attempt : {F : Type 0} (m : M E A) → Keeps P m → Keeps P (attempt {F = F} m)
  Keeps-attempt m k = record { at = λ w h. k.at w h }

module _ {P : Db → Type 0} {E A B : Type 0} where
  -- The rest of the block may use that `r` is no error.
  pub Keeps-bind_lift :
      (r : Result E A) (f : A → M E B)
      → ((a : A) → r ≡ ok a → Keeps P (f a))
      → Keeps P (lift r >>= f)
  Keeps-bind_lift (ok a) f k = k a refl
  Keeps-bind_lift (err e) f k = record { at = λ w h. h }

  -- The rest of the block may use that `m` answered `a` in some world.
  pub Keeps-bind_ok :
      (m : M E A) (f : A → M E B)
      → Keeps P m
      → ((a : A) (w : World) → (m w).0 ≡ ok a → Keeps P (f a))
      → Keeps P (m >>= f)
  Keeps-bind_ok m f km kf = record {
    at = λ w h. (Keeps-bind_lift (m w).0 f (λ a e. kf a w e)).at (m w).1 (km.at w h);
  }

  pub Keeps-bind :
      (m : M E A) (f : A → M E B) → Keeps P m → ((a : A) → Keeps P (f a)) → Keeps P (m >>= f)
  Keeps-bind m f km kf = Keeps-bind_ok m f km (λ a w e. kf a)

  pub Keeps-then : (m : M E A) (n : M E B) → Keeps P m → Keeps P n → Keeps P (m >> n)
  Keeps-then m n km kn = Keeps-bind m (λ _. n) km (λ _. kn)

after-ok :
    {A : Type 0} (s : Stmt A) (db : Db) (a : A) (db' : Db) → s db ≡ ok (a, db') → after s db ≡ db'
after-ok s db a db' e = rw (e, after) refl

record_call-db :
    (env : Env) (w : World) (c : StorageCall) (r : Result StorageError (Unit {0}))
    → (record_call env w c r).1.db ≡ w.db
record_call-db env w c (ok a) = refl
record_call-db env w c (err e) = refl

module _ {P : Db → Type 0} (env : Env) where
  pub Keeps-turn : {E : Type 0} → Keeps P (turn env {E = E})
  Keeps-turn = record { at = λ w h. h }

  pub Keeps-storage_call : (c : StorageCall) → Keeps P (storage_call env c)
  unfolding storage_call
  Keeps-storage_call c = record {
    at = λ w h. subst P (sym (record_call-db env w c ((env w.turn).storage_done c))) h;
  }

  module _ {A : Type 0} (s : Turn → Stmt A)
      (keeps : (t : Turn) (db : Db) → P db → P (after (s t) db)) where
    settled :
        (w : World) (db : Db) (x : Fault) (r : Result RepositoryError (A × Db)) (k : Turn)
        → s k db ≡ r
        → P db
        → P (settle env w db x r).1.db
    settled w db (lost_request x) r k e h = h
    settled w db no_fault (ok (a, db')) k e h = subst P (after-ok (s k) db a db' e) (keeps k db h)
    settled w db no_fault (err x) k e h = h
    settled w db (lost_reply x) (ok (a, db')) k e h =
        subst P (after-ok (s k) db a db' e) (keeps k db h)
    settled w db (lost_reply x) (err y) k e h = h

    pub Keeps-tx_statement : Keeps P (tx_statement env s)
    unfolding tx_statement
    Keeps-tx_statement = record {
      at = λ w h. settled w w.db (env w.turn).fault (s (env w.turn) w.db) (env w.turn) refl h;
    }

    pub Keeps-statement :
        ((n : ℕ) (db : Db) → P db → P ((env n).interfere db)) → Keeps P (statement env s)
    unfolding statement
    Keeps-statement others = record {
      at = λ w h.
          let db = (env w.turn).interfere w.db in
          settled w db (env w.turn).fault (s (env w.turn) db) (env w.turn) refl
            (others w.turn w.db h);
    }

  pub Keeps-run :
      {A : Type 0} (f : M RepositoryError A)
      → ((n : ℕ) (db : Db) → P db → P ((env n).interfere db))
      → Keeps P f
      → Keeps P (run env f)
  Keeps-run f others k = record {
    at = λ w h. elim (run_atomic env f w) [
      | inl same ↦ rw same (others w.turn w.db h)
      | inr (a, _, db) ↦ rw db (k.at (begun env w) (others w.turn w.db h))
    ];
  }
