-- ===== src/Effects/Answers.antt =====
-- What the parts of a computation answered when the whole succeeded.
use benri_stream.Prelude.{Option, none, some, ap, ◌≡◌, refl, arith}
use benri_stream.Platform.{Result, ok, err, map_err, ok_or}
use benri_stream.Effects.Ports.{World, M, continue, ◌>>=◌}

module _ {E A B : Type 0} where
  continue-ok :
      (r : Result E A) (f : A → M E B) (w : World) (b : B)
      → (continue r f w).0 ≡ ok b
      → (a : A) × (r ≡ ok a) × ((f a w).0 ≡ ok b)
  continue-ok (ok a) f w b e = (a, refl, e)
  continue-ok (err x) f w b e = absurd (ground arith)

  -- The first part succeeded, and so did the rest from its answer on.
  pub bind-ok :
      (m : M E A) (f : A → M E B) (w : World) (b : B)
      → ((m >>= f) w).0 ≡ ok b
      → (a : A) × ((m w).0 ≡ ok a) × ((f a (m w).1).0 ≡ ok b)
  bind-ok m f w b e = continue-ok (m w).0 f (m w).1 b e

module _ {E A B : Type 0} where
  continue-end :
      (r : Result E A) (f : A → M E B) (w : World) (b : B) (w' : World)
      → continue r f w ≡ (ok b, w')
      → (a : A) × (r ≡ ok a) × (f a w ≡ (ok b, w'))
  continue-end (ok a) f w b w' e = (a, refl, e)
  continue-end (err x) f w b w' e = absurd (ground arith)

  -- The same, with the world at the end.
  pub bind-end :
      (m : M E A) (f : A → M E B) (w : World) (b : B) (w' : World)
      → (m >>= f) w ≡ (ok b, w')
      → (a : A) × ((m w).0 ≡ ok a) × (f a (m w).1 ≡ (ok b, w'))
  bind-end m f w b w' e = continue-end (m w).0 f (m w).1 b w' e

pub map_err-ok :
    {E F A : Type 0} (f : E → F) (r : Result E A) (a : A) → map_err f r ≡ ok a → r ≡ ok a
map_err-ok f r a e = ground arith

pub ok_injective : {E A : Type 0} (r : Result E A) (a b : A) → r ≡ ok a → r ≡ ok b → a ≡ b
ok_injective r a b e e' = ground arith

pub ok_or-some : {E A : Type 0} (o : Option A) (x : E) (a : A) → ok_or o x ≡ ok a → o ≡ some a
ok_or-some (some b) x a e = ap some (ok_injective (ok b) b a refl e)
ok_or-some none x a e = absurd (ground arith)
