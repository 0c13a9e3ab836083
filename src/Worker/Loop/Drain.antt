-- ===== src/Worker/Loop/Drain.antt =====
-- The end of the loop of crates/worker/src/consumer.rs after a shutdown.
use benri_stream.Prelude.{
  ℕ, suc, ◌+◌, ◌≤◌, true, List, [], ◌∷◌, ◌≡◌, ◌⊎◌, inl, inr, refl, sym, ap, ◌∙◌, arith, length,
}
use benri_stream.Task.Types.{TaskId}
use benri_stream.Worker.Loop.{
  Phase, top, acquiring, popping, sleeping, draining, returned, Loop, Step, sees_shutdown, goes_on,
  interrupted_acquiring, interrupted_popping, acquires, pops, pops_nothing, wakes, completes,
  signalled, returns, Steps, stay, go,
}
use benri_stream.Worker.Loop.Slots.{length-completed, IsRunning}

-- What the loop has to do still: completions and the return.
left : Phase → List TaskId → ℕ
left top ts = 0
left acquiring ts = 0
left popping ts = 0
left sleeping ts = 0
left draining ts = suc (length ts)
left returned ts = length ts

IsEnding : Loop → Type 0
IsEnding l = (l.shutdown ≡ true) × ((l.phase ≡ draining) ⊎ (l.phase ≡ returned))

elsewhere : {A : Type 0} (l : Loop) (q : Phase) → IsEnding l → l.phase ≡ q → IsRunning q → A
unfolding IsEnding IsRunning
elsewhere l q (s, inl e) p (d, r) = absurd (d (sym p ∙ e))
elsewhere l q (s, inr e) p (d, r) = absurd (r (sym p ∙ e))

one_down :
    {l l' : Loop}
    → IsEnding l
    → Step l l'
    → (suc (left l'.phase l'.in_flight) ≡ left l.phase l.in_flight) × IsEnding l'
unfolding left IsRunning IsEnding
one_down {l = l} x (sees_shutdown p s) =
    elsewhere l top x p ((λ e. absurd (cc)), (λ e. absurd (cc)))
one_down {l = l} x (goes_on p s) = elsewhere l top x p ((λ e. absurd (cc)), (λ e. absurd (cc)))
one_down {l = l} x (interrupted_acquiring p s) =
    elsewhere l acquiring x p ((λ e. absurd (cc)), (λ e. absurd (cc)))
one_down {l = l} x (interrupted_popping p s) =
    elsewhere l popping x p ((λ e. absurd (cc)), (λ e. absurd (cc)))
one_down {l = l} x (acquires rest p s) =
    elsewhere l acquiring x p ((λ e. absurd (cc)), (λ e. absurd (cc)))
one_down {l = l} x (pops t p) = elsewhere l popping x p ((λ e. absurd (cc)), (λ e. absurd (cc)))
one_down {l = l} x (pops_nothing p) =
    elsewhere l popping x p ((λ e. absurd (cc)), (λ e. absurd (cc)))
one_down {l = l} x (wakes p) = elsewhere l sleeping x p ((λ e. absurd (cc)), (λ e. absurd (cc)))
one_down {l = l} (s, d) (completes t before behind e) =
    let shorter = ap length e ∙ length-completed before behind t in
    (elim d [ inl p ↦ rw p (ap suc (sym shorter)) | inr p ↦ rw p (sym shorter) ], (s, d))
one_down {l = l} x (signalled s) = absurd (cc (x.0))
one_down {l = l} (s, d) (returns p e) = (rw (p, e) refl, (s, inr refl))

-- In each of these states the loop returns, or can go on.
next_step : (l : Loop) → IsEnding l → (l.phase ≡ returned) ⊎ ((l' : Loop) × Step l l')
unfolding IsEnding
next_step l (s, inr e) = inl e
next_step l (s, inl e) = inr (by_tasks l.in_flight refl)
  where
    by_tasks : (ts : List TaskId) → l.in_flight ≡ ts → (l' : Loop) × Step l l'
    by_tasks [] h = (_, returns e h)
    by_tasks (t ∷ ts) h = (_, completes t [] ts h)

count_down :
    {n : ℕ} {l l' : Loop}
    → IsEnding l
    → Steps n l l'
    → (n + left l'.phase l'.in_flight ≡ left l.phase l.in_flight) × IsEnding l'
count_down x stay = (omega arith, x)
count_down x (go s rest) =
    let (one, x') = one_down x s in let (more, x'') = count_down x' rest in (omega arith, x'')

-- From the moment when it sees the shutdown, the loop takes at most one step for each task in flight and
-- one to return, whatever the order; and after any number of them it has returned or has a next one.
pub drain-returns :
    {n : ℕ} {l l' : Loop}
    → l.phase ≡ draining
    → l.shutdown ≡ true
    → Steps n l l'
    → (n ≤ suc (length l.in_flight)) × ((l'.phase ≡ returned) ⊎ ((l'' : Loop) × Step l' l''))
unfolding left IsEnding
drain-returns {l = l} {l' = l'} p s steps =
    let (count, x) = count_down (s, inl p) steps in
    let total = ap (λ q. left q l.in_flight) p in (omega arith, next_step l' x)
