-- ===== src/Worker/Loop/Slots.antt =====
-- How many tasks the loop of crates/worker/src/consumer.rs runs, and when it returns.
use benri_stream.Prelude.{
  ℕ, suc, ◌+◌, ◌≤◌, true, false, List, [], ◌∷◌, ◌++◌, ◌≡◌, ◌≢◌, ◌⊎◌, inl, inr, refl, sym, ap, ◌∙◌,
  arith, length, Bool-cases,
}
use benri_stream.Task.Types.{TaskId}
use benri_stream.Worker.Loop.{
  Phase, top, acquiring, popping, sleeping, draining, returned, Loop, new, spawned, Step,
  sees_shutdown, goes_on, interrupted_acquiring, interrupted_popping, acquires, pops, pops_nothing,
  wakes, completes, signalled, returns, Reach, start, step,
}

-- The permit that the loop itself holds.
own : Phase → ℕ
own top = 0
own acquiring = 0
own popping = 1
own sleeping = 0
own draining = 0
own returned = 0

-- How many tasks can still be spawned after the signal.
to_come : Phase → ℕ
to_come top = 0
to_come acquiring = 1
to_come popping = 1
to_come sleeping = 0
to_come draining = 0
to_come returned = 0

pub length-completed :
    (before behind : List TaskId) (t : TaskId)
    → length (before ++ t ∷ behind) ≡ suc (length (before ++ behind))
length-completed [] behind t = refl
length-completed (x ∷ before) behind t = ap suc (length-completed before behind t)

no_middle : (before behind : List TaskId) (t : TaskId) → before ++ t ∷ behind ≢ []
no_middle [] behind t e = absurd (cc)
no_middle (x ∷ before) behind t e = absurd (cc)

record IsSlotted (max : ℕ) (l : Loop) : Type 0 where
  slots : l.permits + length l.in_flight + own l.phase ≡ max
  on_time : l.shutdown ≡ false → l.late_tasks ≡ 0
  late : l.late_tasks + to_come l.phase ≤ 1
  ended : l.phase ≡ returned → l.in_flight ≡ []
  closed : (l.phase ≡ draining) ⊎ (l.phase ≡ returned) → l.shutdown ≡ true

-- A step from one phase to another that is not the end, with new permits.
moved :
    {max : ℕ} (l : Loop) (from to : Phase) (permits : ℕ)
    → IsSlotted max l
    → l.phase ≡ from
    → permits + own to ≡ l.permits + own from
    → l.late_tasks + to_come to ≤ 1
    → ((to ≡ draining) ⊎ (to ≡ returned) → l.shutdown ≡ true)
    → (to ≡ returned → l.in_flight ≡ [])
    → IsSlotted max (record l { phase = to; permits = permits })
moved l from to permits x p slots late closed ended = record {
  slots = let a = x.slots in let b = ap own p in omega arith;
  on_time = x.on_time;
  late = late;
  ended = ended;
  closed = closed;
}

unfoldable pub IsRunning : Phase → Type 0
IsRunning q = (q ≢ draining) × (q ≢ returned)

running : {A : Type 0} {q : Phase} → IsRunning q → (q ≡ draining) ⊎ (q ≡ returned) → A
unfolding IsRunning
running (d, r) (inl e) = absurd (d e)
running (d, r) (inr e) = absurd (r e)

late_before :
    {max : ℕ} (l : Loop) (p : Phase) → IsSlotted max l → l.phase ≡ p → l.late_tasks + to_come p ≤ 1
late_before l p x e = let a = x.late in let b = ap to_come e in omega arith

step-IsSlotted : {max : ℕ} {l l' : Loop} → IsSlotted max l → Step l l' → IsSlotted max l'
unfolding own to_come spawned IsRunning
step-IsSlotted {l = l} x (sees_shutdown p s) =
    moved l top draining l.permits x p refl (late_before l top x p) (λ e. s) (λ e. absurd (cc))
step-IsSlotted {l = l} x (goes_on p s) =
    moved l top acquiring l.permits x p refl (let a = x.on_time s in omega arith)
      (running ((λ e. absurd (cc)), (λ e. absurd (cc)))) (λ e. absurd (cc))
step-IsSlotted {l = l} x (interrupted_acquiring p s) =
    moved l acquiring top l.permits x p refl (let a = late_before l acquiring x p in omega arith)
      (running ((λ e. absurd (cc)), (λ e. absurd (cc)))) (λ e. absurd (cc))
step-IsSlotted {l = l} x (interrupted_popping p s) =
    moved l popping top (suc l.permits) x p (omega arith)
      (let a = late_before l popping x p in omega arith)
      (running ((λ e. absurd (cc)), (λ e. absurd (cc)))) (λ e. absurd (cc))
step-IsSlotted {l = l} x (acquires rest p s) =
    moved l acquiring popping rest x p (omega arith) (late_before l acquiring x p)
      (running ((λ e. absurd (cc)), (λ e. absurd (cc)))) (λ e. absurd (cc))
step-IsSlotted {l = l} x (pops t p) = record {
  slots = let a = x.slots in let b = ap own p in omega arith;
  on_time = λ s. rw s (x.on_time s);
  late = elim (Bool-cases l.shutdown) [
    | inl s ↦ rw s (let a = late_before l popping x p in omega arith)
    | inr s ↦ rw s (let a = x.on_time s in omega arith)
  ];
  ended = λ e. absurd (cc);
  closed = running ((λ e. absurd (cc)), (λ e. absurd (cc)));
}
step-IsSlotted {l = l} x (pops_nothing p) =
    moved l popping sleeping (suc l.permits) x p (omega arith)
      (let a = late_before l popping x p in omega arith)
      (running ((λ e. absurd (cc)), (λ e. absurd (cc)))) (λ e. absurd (cc))
step-IsSlotted {l = l} x (wakes p) =
    moved l sleeping top l.permits x p refl (late_before l sleeping x p)
      (running ((λ e. absurd (cc)), (λ e. absurd (cc)))) (λ e. absurd (cc))
step-IsSlotted {l = l} x (completes t before behind e) = record {
  slots = let a = x.slots in let b = ap length e ∙ length-completed before behind t in omega arith;
  on_time = x.on_time;
  late = x.late;
  ended = λ r. absurd (no_middle before behind t (sym e ∙ x.ended r));
  closed = x.closed;
}
step-IsSlotted {l = l} x (signalled s) = record {
  slots = x.slots;
  on_time = λ (e : true ≡ false). absurd (cc);
  late = x.late;
  ended = x.ended;
  closed = λ e. refl;
}
step-IsSlotted {l = l} x (returns p e) =
    moved l draining returned l.permits x p refl (late_before l draining x p)
      (λ q. x.closed (inl p)) (λ q. e)

start-IsSlotted : (max : ℕ) → IsSlotted max (new max)
unfolding new own to_come
start-IsSlotted max = record {
  slots = omega arith;
  on_time = λ e. refl;
  late = omega arith;
  ended = λ e. refl;
  closed = running_top;
}
  where
    running_top : (top ≡ draining) ⊎ (top ≡ returned) → false ≡ true
    running_top (inl e) = absurd (cc)
    running_top (inr e) = absurd (cc)

Reach-IsSlotted : {max : ℕ} {l : Loop} → Reach max l → IsSlotted max l
Reach-IsSlotted {max = max} start = start-IsSlotted max
Reach-IsSlotted (step r s) = step-IsSlotted (Reach-IsSlotted r) s

-- However the steps come, at most `max` tasks are in flight, at most one task is spawned after the
-- shutdown was signalled, and when the loop returns no task is in flight.
pub Reach-IsBounded :
    {max : ℕ} {l : Loop}
    → Reach max l
    → (length l.in_flight ≤ max) × (l.late_tasks ≤ 1) × (l.phase ≡ returned → l.in_flight ≡ [])
Reach-IsBounded {l = l} r =
    let x = Reach-IsSlotted r in
    ((let a = x.slots in omega arith), (let b = x.late in omega arith), x.ended)
