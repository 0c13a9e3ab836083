-- ===== src/Transcoder/Graph/Calls.antt =====
-- What has been done when the calls that build a pipeline in
-- crates/infrastructure/src/transcoder/gstreamer.rs have succeeded.
use benri_stream.Prelude.{
  ℕ, zero, suc, String, Option, none, some, List, [], ◌∷◌, ◌++◌, ◌≡◌, refl, sym, subst, In, here,
  there, In-append, In-append_left, In-cons, ◌⊎◌, inl, inr,
}
use benri_stream.Platform.{Result, ok, err}
use benri_stream.Transcoder.Graph.{
  Pipeline, Call, make, add_many, link_many, get_pad, link_pads, create_dir_all, chain, effect,
  perform,
}

abbrev pub Within : {A : Type 0} → List A → List A → Type 0
Within {A} xs ys = (x : A) → In x xs → In x ys

-- What a call is there for is in the pipeline.
abbrev pub Done : Pipeline → Call → Type 0
Done p (make _) = Unit {0}
Done p (add_many _ es) = Within es p.elements
Done p (link_many _ es) = Within (chain es) p.links
Done p (get_pad _) = Unit {0}
Done p (link_pads _ l) = In l p.links
Done p (create_dir_all _) = Unit {0}

-- Nothing is taken out of the pipeline.
abbrev pub Grows : Pipeline → Pipeline → Type 0
Grows p q = Within p.elements q.elements × Within p.links q.links

pub In-append_right : {A : Type 0} (xs ys : List A) (a : A) → In a ys → In a (xs ++ ys)
In-append_right [] ys a i = i
In-append_right (x ∷ xs) ys a i = there (In-append_right xs ys a i)

effect-Grows : (c : Call) (p : Pipeline) → Grows p (effect c p)
unfolding effect
effect-Grows (make _) p = (λ x i. i, λ x i. i)
effect-Grows (add_many _ es) p = (In-append_right es p.elements, λ x i. i)
effect-Grows (link_many _ es) p = (λ x i. i, In-append_right (chain es) p.links)
effect-Grows (get_pad _) p = (λ x i. i, λ x i. i)
effect-Grows (link_pads _ l) p = (λ x i. i, λ x i. there i)
effect-Grows (create_dir_all _) p = (λ x i. i, λ x i. i)

effect-Done : (c : Call) (p : Pipeline) → Done (effect c p) c
unfolding effect
effect-Done (make _) p = tt
effect-Done (add_many _ es) p = In-append_left es p.elements
effect-Done (link_many _ es) p = In-append_left (chain es) p.links
effect-Done (get_pad _) p = tt
effect-Done (link_pads _ l) p = here refl
effect-Done (create_dir_all _) p = tt

Done-Grows : (c : Call) {p q : Pipeline} → Grows p q → Done p c → Done q c
Done-Grows (make _) g d = tt
Done-Grows (add_many _ es) g d = λ x i. g.0 x (d x i)
Done-Grows (link_many _ es) g d = λ x i. g.1 x (d x i)
Done-Grows (get_pad _) g d = tt
Done-Grows (link_pads _ l) g d = g.1 l d
Done-Grows (create_dir_all _) g d = tt

pub Within-cons :
    {A : Type 0} (x : A) (xs ys : List A) → In x ys → Within xs ys → Within (x ∷ xs) ys
Within-cons x xs ys i w a j = elim (In-cons j) [
  | inl same ↦ subst (λ b. In b ys) (sym same) i
  | inr k ↦ w a k
]

pub Within-snoc :
    {A : Type 0} (xs ys : List A) (x : A) → Within xs ys → In x ys → Within (xs ++ x ∷ []) ys
Within-snoc xs ys x w i a j = elim (In-append xs (x ∷ []) a j) [
  | inl k ↦ w a k
  | inr k ↦ Within-cons x [] ys i (λ b l. elim l [ ]) a k
]

abbrev pub nth : {A : Type 0} → ℕ → List A → Option A
nth n [] = none
nth zero (x ∷ xs) = some x
nth (suc n) (x ∷ xs) = nth n xs

pub In-nth : {A : Type 0} (n : ℕ) (xs : List A) {x : A} → nth n xs ≡ some x → In x xs
In-nth n [] e = absurd (cc)
In-nth zero (y ∷ xs) e = here cc
In-nth (suc n) (y ∷ xs) e = there (In-nth n xs e)

Result-cases : {E A : Type 0} (r : Result E A) → ((x : A) × (r ≡ ok x)) ⊎ ((x : E) × (r ≡ err x))
Result-cases (ok x) = inl (x, refl)
Result-cases (err x) = inr (x, refl)

unfoldable pub Performed : List Call → Pipeline → Pipeline → Type 0
Performed calls p q = Grows p q × ((c : Call) → In c calls → Done q c)

Performed-cons :
    (c : Call) (cs : List Call) (p q : Pipeline)
    → Performed cs (effect c p) q
    → Performed (c ∷ cs) p q
unfolding Performed
Performed-cons c cs p q (grows, done) =
    let first = effect-Grows c p in
    let done_all : (d : Call) → In d (c ∷ cs) → Done q d = λ d i. elim (In-cons i) [
      | inl same ↦ subst (Done q) (sym same) (Done-Grows c grows (effect-Done c p))
      | inr j ↦ done d j
    ] in
    ((λ x i. grows.0 x (first.0 x i), λ x i. grows.1 x (first.1 x i)), done_all)

pub perform-Performed :
    (answer : ℕ → Result String (Unit {0})) (n : ℕ) (calls : List Call) (p q : Pipeline)
    → perform answer n calls p ≡ ok q
    → Performed calls p q
unfolding perform Performed
perform-Performed answer n [] p q e =
    let same : p ≡ q = cc in rw same ((λ x i. i, λ x i. i), λ c i. elim i [ ])
perform-Performed answer n (c ∷ cs) p q e = elim (Result-cases (answer n)) [
  | inl (x, a) ↦
      Performed-cons c cs p q
        (perform-Performed answer (suc n) cs (effect c p) q (rw (a, perform) at e))
  | inr (x, a) ↦ let failed = rw (a, perform) at e in absurd (cc)
]

pub perform_ok :
    (answer : ℕ → Result String (Unit {0})) (n : ℕ) (calls : List Call) (p : Pipeline)
    → ((k : ℕ) → answer k ≡ ok tt)
    → (q : Pipeline) × (perform answer n calls p ≡ ok q)
unfolding perform
perform_ok answer n [] p h = (p, refl)
perform_ok answer n (c ∷ cs) p h = rw (h n, perform) (perform_ok answer (suc n) cs (effect c p) h)
