-- ===== src/Redis/Exclusion.antt =====
-- Workers that take the lock of crates/infrastructure/src/redis/distributed_lock.rs.
use benri_stream.Prelude.{
  ℕ, ◌+◌, ◌<◌, String, Option, none, some, List, not, ◌≡◌, ◌≢◌, refl, sym, ap, ◌∙◌, inl, inr, In,
  In-cons, In-keep, ◌==◌, eq_iff, arith,
}
use benri_stream.Platform.{Result, ok, err}
use benri_stream.Effects.Ports.{LockError}
use benri_stream.Redis.{Server, IsServer, acquire}
use benri_stream.Redis.Holders.{
  some_injective, Holder, System, granted, without, Step, acquires, releases, dies, passes, Reach,
  start, step, Guards, later, acquire-Guards, release-Guards, acquire-given,
}

module _ {S : Type 0} (server : Server S) where
  record IsExclusive (s : System S) : Type 0 where
    guards : (h : Holder) → In h s.holders → Guards server s.redis s.now h
    unique : (a b : Holder) → In a s.holders → In b s.holders → a.token ≡ b.token → a ≡ b

  module _ (laws : IsServer server) where
    In-without :
        (h k : Holder) (holders : List Holder)
        → In k (without server h holders)
        → In k holders × (k.token ≢ h.token)
    In-without h k holders i =
        let (j, e) = In-keep (λ x. not (x.token == h.token)) holders k i in
        (j, λ same. let t = (eq_iff k.token h.token).1 same in absurd (cc (ap not t)))

    without_unique :
        (h : Holder) (s : System S)
        → IsExclusive s
        → (a b : Holder) → In a (without server h s.holders)
        → In b (without server h s.holders)
        → a.token ≡ b.token
        → a ≡ b
    without_unique h s x a b i j e =
        x.unique a b (In-without h a s.holders i).0 (In-without h b s.holders j).0 e

    granted-IsExclusive :
        (s : System S) (key : String) (ttl : ℕ) (token : String)
        (r : Result LockError (Option String)) (redis : S)
        → IsExclusive s
        → ((h : Holder) → In h s.holders → h.token ≢ token)
        → ((h : Holder) → In h s.holders → Guards server redis s.now h)
        → ((given : String)
            → r ≡ ok (some given)
            → (given ≡ token)
              × Guards server redis s.now
                  (record { key = key; token = token; expires_at = s.now + ttl }))
        → IsExclusive (granted server s key ttl (r, redis))
    granted-IsExclusive s key ttl token (err x) redis ex fresh g given = record {
      guards = g;
      unique = ex.unique;
    }
    granted-IsExclusive s key ttl token (ok none) redis ex fresh g given = record {
      guards = g;
      unique = ex.unique;
    }
    granted-IsExclusive s key ttl token (ok (some t)) redis ex fresh g given =
        let (same, mine) = given t refl in
        record {
          guards = λ h i. elim (In-cons i) [ inl e ↦ rw (e, same) mine | inr j ↦ g h j ];
          unique = λ a b i j e. elim (In-cons i) [
            | inl ea ↦ elim (In-cons j) [
              | inl eb ↦ ea ∙ sym eb
              | inr jb ↦ absurd (fresh b jb (sym e ∙ ap (λ h. h.token) ea ∙ same))
            ]
            | inr ja ↦ elim (In-cons j) [
              | inl eb ↦ absurd (fresh a ja (e ∙ ap (λ h. h.token) eb ∙ same))
              | inr jb ↦ ex.unique a b ja jb e
            ]
          ];
        }

    step-IsExclusive : {s s' : System S} → IsExclusive s → Step server s s' → IsExclusive s'
    step-IsExclusive {s = s} x (acquires fault key ttl token fresh) =
        let answer = acquire server fault s.now key ttl token s.redis in
        granted-IsExclusive s key ttl token answer.0 answer.1 x fresh
          (λ h i. acquire-Guards server laws fault s.now key ttl token s.redis h (x.guards h i))
          (λ given e. acquire-given server laws fault s.now key ttl token given s.redis e)
    step-IsExclusive {s = s} x (releases fault h i) = record {
      guards = λ k j.
          let (old, ne) = In-without h k s.holders j in
          release-Guards server laws fault s.now h.key h.token s.redis k ne (x.guards k old);
      unique = without_unique h s x;
    }
    step-IsExclusive {s = s} x (dies h) = record {
      guards = λ k j. x.guards k (In-without h k s.holders j).0;
      unique = without_unique h s x;
    }
    step-IsExclusive {s = s} x (passes secs) = record {
      guards = λ k j. later server s.redis s.now secs k (x.guards k j);
      unique = x.unique;
    }

    Reach-IsExclusive : {s : System S} → Reach server s → IsExclusive s
    Reach-IsExclusive (start redis now) = record {
      guards = λ h i. elim i [ ];
      unique = λ a b i. elim i [ ];
    }
    Reach-IsExclusive (step r t) = step-IsExclusive (Reach-IsExclusive r) t

    -- Whatever the workers do with locks, and whatever calls are lost, two holders of one key whose
    -- times have not ended are the same holder.
    pub mutual_exclusion :
        {s : System S} (a b : Holder)
        → Reach server s
        → In a s.holders
        → In b s.holders
        → a.key ≡ b.key
        → s.now < a.expires_at
        → s.now < b.expires_at
        → a ≡ b
    unfolding Guards
    mutual_exclusion {s = s} a b r i j key la lb =
        let x = Reach-IsExclusive r in
        let ga = x.guards a i s.now (omega arith) la in
        let gb = x.guards b j s.now (omega arith) lb in
        x.unique a b i j (some_injective (sym ga ∙ ap (λ k. server.get s.now k s.redis) key ∙ gb))
