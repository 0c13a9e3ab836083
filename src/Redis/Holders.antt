-- ===== src/Redis/Holders.antt =====
-- What the holders of the lock of crates/infrastructure/src/redis/distributed_lock.rs rely on.
use benri_stream.Prelude.{
  ℕ, ◌+◌, ◌≤◌, ◌<◌, String, true, Option, none, some, List, [], ◌∷◌, keep, not, ◌≡◌, ◌≢◌, refl, sym,
  ap, ◌∙◌, inl, inr, In, Bool-cases, Option-cases, ◌==◌, eq_iff, arith,
}
use benri_stream.Platform.{Result, ok}
use benri_stream.Effects.Ports.{Fault, no_fault, lost_request, lost_reply, LockError}
use benri_stream.Effects.Answers.{ok_injective}
use benri_stream.Redis.{
  Server, IsServer, acquire, acquired, release, check_and_delete, matches, with_fault,
}

-- A worker that has a lock, and the end of its time.
pub record Holder : Type 0 where
  pub key : String
  pub token : String
  pub expires_at : ℕ

pub record System (S : Type 0) : Type 0 where
  pub redis : S
  pub now : ℕ
  pub holders : List Holder

pub some_injective : {A : Type 0} {a b : A} → some a ≡ some b → a ≡ b
some_injective e = cc

ok_some :
    (o : Option String) (r : Result LockError (Option String)) (given : String)
    → r ≡ ok o
    → r ≡ ok (some given)
    → o ≡ some given
ok_some o r given e e' = ok_injective r o (some given) e e'

acquired-some :
    (token : String) (reply : Option String) (given : String)
    → acquired token reply ≡ some given
    → given ≡ token
acquired-some token none given e = absurd (cc)
acquired-some token (some r) given e = elim (Bool-cases (r == "OK")) [
  | inl h ↦ some_injective (sym (rw h at e))
  | inr h ↦ absurd (cc (rw h at e))
]

module _ {S : Type 0} (server : Server S) where
  -- The caller holds the lock if the answer has a token.
  abbrev pub granted : System S → String → ℕ → Result LockError (Option String) × S → System S
  granted s key ttl (ok (some token), redis) = record s {
    redis = redis;
    holders = record { key = key; token = token; expires_at = s.now + ttl } ∷ s.holders;
  }
  granted s key ttl (_, redis) = record s { redis = redis }

  abbrev pub without : Holder → List Holder → List Holder
  without h holders = keep (λ k. not (k.token == h.token)) holders

  -- What can happen: somebody asks for a lock with a new token, gives it back, or dies; time passes.
  pub data Step (s : System S) : System S → Type 0 where
    acquires :
        (fault : Fault) (key : String) (ttl : ℕ) (token : String)
        → ((h : Holder) → In h s.holders → h.token ≢ token)
        → Step s (granted s key ttl (acquire server fault s.now key ttl token s.redis))
    releases :
        (fault : Fault) (h : Holder)
        → In h s.holders
        → Step s (record s {
          redis = (release server fault s.now h.key h.token s.redis).1;
          holders = without h s.holders;
        })
    dies : (h : Holder) → Step s (record s { holders = without h s.holders })
    passes : (secs : ℕ) → Step s (record s { now = s.now + secs })

  -- From the state without holders.
  pub data Reach : System S → Type 0 where
    start : (redis : S) (now : ℕ) → Reach (record { redis = redis; now = now; holders = [] })
    step : {s s' : System S} → Reach s → Step s s' → Reach s'

  -- Until the end of the holder's time, the server has its token.
  unfoldable pub Guards : S → ℕ → Holder → Type 0
  Guards redis now h =
      (t : ℕ) → now ≤ t → t < h.expires_at → server.get t h.key redis ≡ some h.token

  pub later :
      (redis : S) (now secs : ℕ) (h : Holder) → Guards redis now h → Guards redis (now + secs) h
  unfolding Guards
  later redis now secs h g t le lt = g t (omega arith) lt

  module _ (laws : IsServer server) where
    set-Guards :
        (now : ℕ) (key value : String) (ttl : ℕ) (redis : S) (h : Holder)
        → Guards redis now h
        → Guards (server.set_nx_ex now key value ttl redis).1 now h
    unfolding Guards
    set-Guards now key value ttl redis h g t le lt =
        elim (Option-cases (server.get now key redis)) [
          | inl free ↦ elim (Bool-cases (key == h.key)) [
            | inl e ↦
                let same = (eq_iff key h.key).0 e in
                let held = g now (omega arith) (omega arith) in absurd (cc)
            | inr e ↦
                laws.get_set_other now t key value h.key ttl redis
                  (λ same. absurd (cc ((eq_iff key h.key).1 same)))
                ∙ g t le lt
          ]
          | inr (v, taken) ↦
              ap (λ r. server.get t h.key r.1) (laws.set_taken now key value ttl redis v taken)
              ∙ g t le lt
        ]

    faulty-Guards :
        {E A : Type 0} (fault : Fault) (internal : String → E) (r : Result E A) (before after : S)
        (now : ℕ) (h : Holder)
        → Guards before now h
        → Guards after now h
        → Guards (with_fault fault internal (r, after) before).1 now h
    faulty-Guards no_fault internal r before after now h b a = a
    faulty-Guards (lost_request e) internal r before after now h b a = b
    faulty-Guards (lost_reply e) internal r before after now h b a = a

    pub acquire-Guards :
        (fault : Fault) (now : ℕ) (key : String) (ttl : ℕ) (token : String) (redis : S) (h : Holder)
        → Guards redis now h
        → Guards (acquire server fault now key ttl token redis).1 now h
    unfolding acquire
    acquire-Guards fault now key ttl token redis h g =
        faulty-Guards fault _ _ redis _ now h g (set-Guards now key token ttl redis h g)

    check-Guards :
        (now : ℕ) (key token : String) (redis : S) (h : Holder)
        → h.token ≢ token
        → Guards redis now h
        → Guards (check_and_delete server now key token redis).1 now h
    unfolding check_and_delete Guards
    check-Guards now key token redis h ne g t le lt =
        elim (Bool-cases (matches (server.get now key redis) token)) [
          | inl m ↦ elim (Bool-cases (key == h.key)) [
            | inl e ↦
                let same = (eq_iff key h.key).0 e in
                let held = g now (omega arith) (omega arith) in
                let own : matches (some h.token) token ≡ true =
                  ap (λ o. matches o token) (sym held ∙ ap (λ k. server.get now k redis) (sym same))
                  ∙ m in
                absurd (ne ((eq_iff h.token token).0 own))
            | inr e ↦ rw m (
                laws.get_del_other now t key h.key redis
                  (λ same. absurd (cc ((eq_iff key h.key).1 same)))
                ∙ g t le lt)
          ]
          | inr m ↦ rw m (g t le lt)
        ]

    pub release-Guards :
        (fault : Fault) (now : ℕ) (key token : String) (redis : S) (h : Holder)
        → h.token ≢ token
        → Guards redis now h
        → Guards (release server fault now key token redis).1 now h
    unfolding release
    release-Guards fault now key token redis h ne g =
        faulty-Guards fault _ _ redis _ now h g (check-Guards now key token redis h ne g)

    -- Only a key without a value is given, and then it has the new token.
    pub acquire-given :
        (fault : Fault) (now : ℕ) (key : String) (ttl : ℕ) (token given : String) (redis : S)
        → (acquire server fault now key ttl token redis).0 ≡ ok (some given)
        → (given ≡ token)
          × Guards
              (acquire server fault now key ttl token redis).1
              now
              (record { key = key; token = token; expires_at = now + ttl })
    unfolding acquire Guards
    acquire-given (lost_request x) now key ttl token given redis e = absurd (ground arith)
    acquire-given (lost_reply x) now key ttl token given redis e = absurd (ground arith)
    acquire-given no_fault now key ttl token given redis e =
        elim (Option-cases (server.get now key redis)) [
          | inl free ↦ (
            acquired-some token (server.set_nx_ex now key token ttl redis).0 given
                (ok_some _ _ given refl e),
            λ t le lt. laws.get_set now t key token ttl redis free le lt,
          )
          | inr (v, taken) ↦
              let reply =
                ap (λ r. acquired token r.0) (laws.set_taken now key token ttl redis v taken) in
              absurd (cc (reply, ok_some _ _ given refl e))
        ]
