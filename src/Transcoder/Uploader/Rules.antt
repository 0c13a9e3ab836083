-- ===== src/Transcoder/Uploader/Rules.antt =====
-- Rules for the methods of crates/infrastructure/src/transcoder/hls_uploader.rs: what a method keeps
-- in any case, and what holds after it when it succeeds.
use benri_stream.Prelude.{
  ℕ, String, Bool, true, false, List, [], ◌∷◌, ◌≡◌, refl, if◌then◌else◌, Bool-cases, inl, inr, In,
  In-cons, here, there, concat, length, subst, sym, arith,
}
use benri_stream.Platform.{Result, ok, err, map_err}
use benri_stream.Effects.Ports.{StorageError, TranscoderError, transcode_failed, show_storage_error}
use benri_stream.Transcoder.Uploader.{Uploader, Upload, Step, done, continue, ◌>>◌, each, request}

abbrev pub Always : Uploader → Type 0
Always u = Unit {0}

-- From a state with `I` and `P`, the method keeps `I`; if it succeeds, then `Q` holds.
pub record Triple (I P Q : Uploader → Type 0) (s : Step) : Type 0 where
  pub at : (u : Uploader) → I u → P u → I (s u).1 × ((s u).0 ≡ ok tt → Q (s u).1)

module _ {I P Q : Uploader → Type 0} where
  pub Triple-done : ((u : Uploader) → I u → P u → Q u) → Triple I P Q done
  Triple-done h = record { at = λ u i p. (i, λ _. h u i p) }

  -- A change of the state that cannot fail.
  pub Triple-set :
      (f : Uploader → Uploader)
      → ((u : Uploader) → I u → P u → I (f u) × Q (f u))
      → Triple I P Q (λ u. done (f u))
  Triple-set f h = record { at = λ u i p. let (i', q) = h u i p in (i', λ _. q) }

  pub Triple-fail : (e : TranscoderError) → Triple I P Q (λ u. (err e, u))
  Triple-fail e = record { at = λ u i p. (i, λ (x : err e ≡ ok tt). absurd (cc)) }

  pub Triple-if :
      (test : Uploader → Bool) (taken other : Step)
      → Triple I (λ u. P u × (test u ≡ true)) Q taken
      → Triple I (λ u. P u × (test u ≡ false)) Q other
      → Triple I P Q (λ u. if test u then taken u else other u)
  Triple-if test taken other t o = record {
    at = λ u i p. elim (Bool-cases (test u)) [
      | inl e ↦ rw e (t.at u i (p, e))
      | inr e ↦ rw e (o.at u i (p, e))
    ];
  }

  -- Another condition before, and another one after.
  pub Triple-weaken :
      {P' Q' : Uploader → Type 0} {s : Step}
      → Triple I P' Q' s
      → ((u : Uploader) → I u → P u → P' u)
      → ((u : Uploader) → Q' u → Q u)
      → Triple I P Q s
  Triple-weaken {s = s} t before after = record {
    at = λ u i p. let (i', q) = t.at u i (before u i p) in (i', λ e. after (s u).1 (q e));
  }

module _ {I Q R : Uploader → Type 0} where
  continued :
      (r : Result TranscoderError (Unit {0})) (u : Uploader) (next : Step)
      → I u
      → (r ≡ ok tt → Q u)
      → Triple I Q R next
      → I (continue r next u).1 × ((continue r next u).0 ≡ ok tt → R (continue r next u).1)
  continued (ok _) u next i q t = t.at u i (q refl)
  continued (err e) u next i q t = (i, λ (x : err e ≡ ok tt). absurd (cc))

-- What is kept in any case, as a condition before and after.
pub Triple-moved :
    {I : Uploader → Type 0} {s : Step} → Triple I Always Always s → Triple Always I I s
Triple-moved {s = s} t = record { at = λ u _ i. (tt, λ _. (t.at u i tt).0) }

pub Triple-and :
    {I P Q P' Q' : Uploader → Type 0} {s : Step}
    → Triple I P Q s
    → Triple I P' Q' s
    → Triple I (λ u. P u × P' u) (λ u. Q u × Q' u) s
Triple-and {s = s} t t' = record {
  at = λ u i p. let (i', q) = t.at u i p.0 in (i', λ e. (q e, (t'.at u i p.1).1 e));
}

module _ {I P Q R : Uploader → Type 0} where
  pub Triple-then :
      {first next : Step} → Triple I P Q first → Triple I Q R next → Triple I P R (first >> next)
  Triple-then {first = first} {next = next} a b = record {
    at = λ u i p. let (i', q) = a.at u i p in continued (first u).0 (first u).1 next i' q b;
  }

module _ {I P : Uploader → Type 0} where
  pub Triple-each :
      {A : Type 0} (step : A → Step) (xs : List A)
      → ((x : A) → In x xs → Triple I P P (step x))
      → Triple I P P (each step xs)
  unfolding each
  Triple-each step [] h = Triple-done (λ u i p. p)
  Triple-each step (x ∷ xs) h =
      Triple-then (h x (here refl)) (Triple-each step xs (λ y i. h y (there i)))

-- The state after a request and its answer.
abbrev pub logged : Uploader → Upload → Result StorageError (Unit {0}) → Uploader
logged u upload r = record u { requests = (upload, r) ∷ u.requests }

asked :
    (what : String) (r : Result StorageError (Unit {0}))
    → map_err (λ e. transcode_failed (concat (what ∷ show_storage_error e ∷ []))) r ≡ ok tt
    → r ≡ ok tt
asked what (ok _) e = refl
asked what (err x) e = absurd (ground arith)

module _ {I P Q : Uploader → Type 0} (answer : ℕ → Result StorageError (Unit {0})) where
  pub Triple-request :
      (upload : Upload) (what : String)
      → ((u : Uploader) → I u → P u → (r : Result StorageError (Unit {0})) → I (logged u upload r))
      → ((u : Uploader) → I u → P u → Q (logged u upload (ok tt)))
      → Triple I P Q (request answer upload what)
  unfolding request
  Triple-request upload what keep after = record {
    at = λ u i p.
        let r = answer (length u.requests) in
        (
          keep u i p r,
          λ e. subst (λ x. Q (logged u upload x)) (sym (asked what r e)) (after u i p),
        );
  }

-- After a loop whose step `x` reaches `Q x`, and whose other steps keep it, each `Q x` holds.
pub Triple-each_all :
    {A : Type 0} (Q : A → Uploader → Type 0) (step : A → Step) (xs : List A)
    → ((x : A) → Triple Always Always (Q x) (step x))
    → ((x y : A) → Triple Always (Q x) (Q x) (step y))
    → Triple Always Always (λ u. (x : A) → In x xs → Q x u) (each step xs)
unfolding each
Triple-each_all Q step [] reach stay = Triple-done (λ u g h x i. elim i [ ])
Triple-each_all Q step (x ∷ xs) reach stay = Triple-then {Q = Q x} (reach x) (
    Triple-weaken {P = Q x}
      (Triple-and {P = Q x} {P' = Always} (Triple-each step xs (λ y i. stay x y))
        (Triple-each_all Q step xs reach stay))
      (λ u g q. (q, tt))
      (λ u q y i. elim (In-cons i) [ inl e ↦ subst (λ z. Q z u) (sym e) q.0 | inr j ↦ q.1 y j ]))
