-- ===== src/Prelude/Membership.antt =====
-- Membership in the lists that the operations of Prelude/Lists.antt build.
use Prim.Native.Nat.{ℕ, zero, suc}
use mathlib.Core.Path.{◌≡◌, refl, subst, sym, ap, ◌∙◌}
use mathlib.Core.Logic.{◌⊎◌, inl, inr}
use mathlib.Core.Bool.{Bool, true}
use mathlib.Core.List.{List, [], ◌∷◌, ◌++◌, map}
use native.Mathlib.Omega.{arith}
use benri_stream.Prelude.Tests.{if◌then◌else◌, Bool-cases}
use benri_stream.Prelude.Lists.{keep, any, take, update_where, In, here, there, All}

module _ {ℓ} {A : Type ℓ} where
  pub In-cons : {a x : A} {xs : List A} → In a (x ∷ xs) → (a ≡ x) ⊎ In a xs
  In-cons (here e) = inl e
  In-cons (there i) = inr i

  pub In-keep : (p : A → Bool) (xs : List A) (a : A) → In a (keep p xs) → In a xs × (p a ≡ true)
  In-keep p [] a i = elim i [ ]
  In-keep p (x ∷ xs) a i = elim (Bool-cases (p x)) [
    | inl e ↦ elim (In-cons (rw e at i)) [
      | inl same ↦ (here same, ap p same ∙ e)
      | inr rest ↦ let (j, h) = In-keep p xs a rest in (there j, h)
    ]
    | inr e ↦ let (j, h) = In-keep p xs a (rw e at i) in (there j, h)
  ]

  pub In-keep_back : (p : A → Bool) (xs : List A) (a : A) → In a xs → p a ≡ true → In a (keep p xs)
  In-keep_back p [] a i h = elim i [ ]
  In-keep_back p (x ∷ xs) a i h = elim (In-cons i) [
    | inl same ↦ rw (ap p (sym same) ∙ h) (here same)
    | inr j ↦ elim (Bool-cases (p x)) [
      | inl e ↦ rw e (there (In-keep_back p xs a j h))
      | inr e ↦ rw e (In-keep_back p xs a j h)
    ]
  ]

  pub In-take : (n : ℕ) (xs : List A) (a : A) → In a (take n xs) → In a xs
  In-take zero xs a i = elim i [ ]
  In-take (suc n) [] a i = elim i [ ]
  In-take (suc n) (x ∷ xs) a (here e) = here e
  In-take (suc n) (x ∷ xs) a (there i) = there (In-take n xs a i)

  pub In-append : (xs ys : List A) (a : A) → In a (xs ++ ys) → In a xs ⊎ In a ys
  In-append [] ys a i = inr i
  In-append (x ∷ xs) ys a (here e) = inl (here e)
  In-append (x ∷ xs) ys a (there i) = elim (In-append xs ys a i) [
    | inl j ↦ inl (there j)
    | inr j ↦ inr j
  ]

  pub In-append_left : (xs ys : List A) (a : A) → In a xs → In a (xs ++ ys)
  In-append_left [] ys a i = elim i [ ]
  In-append_left (x ∷ xs) ys a (here e) = here e
  In-append_left (x ∷ xs) ys a (there i) = there (In-append_left xs ys a i)

  -- Every row of an update comes from a row of the table.
  pub In-update_where :
      (test : A → Bool) (change : A → A) (xs : List A) (a : A)
      → In a (update_where test change xs)
      → (x : A) × In x xs × (a ≡ (if test x then change x else x))
  In-update_where test change [] a i = elim i [ ]
  In-update_where test change (x ∷ xs) a (here e) = (x, here refl, e)
  In-update_where test change (x ∷ xs) a (there i) =
      let (y, j, e) = In-update_where test change xs a i in (y, there j, e)

  -- An element that passes the test makes `any` true, and the other way round.
  pub any_of_In : (p : A → Bool) (xs : List A) (a : A) → In a xs → p a ≡ true → any p xs ≡ true
  any_of_In p [] a i h = elim i [ ]
  any_of_In p (x ∷ xs) a (here e) h = ground (arith, ap p e)
  any_of_In p (x ∷ xs) a (there i) h = ground (arith, any_of_In p xs a i h)

  pub In-of_any : (p : A → Bool) (xs : List A) → any p xs ≡ true → (a : A) × In a xs × (p a ≡ true)
  In-of_any p [] h = absurd (cc)
  In-of_any p (x ∷ xs) h = elim (Bool-cases (p x)) [
    | inl e ↦ (x, here refl, e)
    | inr e ↦ let (a, i, q) = In-of_any p xs (rw e at h) in (a, there i, q)
  ]

  pub All-in {κ} : (P : A → Type κ) (xs : List A) (a : A) → All P xs → In a xs → P a
  All-in P [] a h i = elim i [ ]
  All-in P (x ∷ xs) a h (here e) = subst P (sym e) h.0
  All-in P (x ∷ xs) a h (there i) = All-in P xs a h.1 i

module _ {ℓ κ} {A : Type ℓ} {B : Type κ} where
  pub In-map : (f : A → B) (xs : List A) (b : B) → In b (map f xs) → (a : A) × In a xs × (b ≡ f a)
  In-map f [] b i = elim i [ ]
  In-map f (x ∷ xs) b (here e) = (x, here refl, e)
  In-map f (x ∷ xs) b (there i) = let (a, j, e) = In-map f xs b i in (a, there j, e)
