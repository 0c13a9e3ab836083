-- ===== src/Tests/LoopRuns.antt =====
-- Steps of the consumer's loop, and the theorems at them.
use benri_stream.Prelude.{suc, ◌≤◌, true, [], ◌∷◌, ◌≡◌, ◌⊎◌, refl, length}
use benri_stream.Worker.Loop.{
  Loop, new, top, draining, returned, spawned, Step, goes_on, acquires, pops, signalled, completes,
  returns, Reach, start, step, Steps, stay, go,
}
use benri_stream.Worker.Loop.Slots.{Reach-IsBounded}
use benri_stream.Worker.Loop.Drain.{drain-returns}

-- A task was popped with the only permit, as the shutdown was signalled.
abbrev late : Loop
late = record { phase = top; shutdown = true; permits = 0; in_flight = 7 ∷ []; late_tasks = 1 }

late-Reach : Reach 1 late
unfolding new spawned
late-Reach =
    step (step (step (step start (goes_on refl refl)) (acquires 0 refl refl)) (signalled refl))
      (pops 7 refl)

Reach-IsBounded_example :
    (length late.in_flight ≤ 1)
    × (late.late_tasks ≤ 1)
    × (late.phase ≡ returned → late.in_flight ≡ [])
Reach-IsBounded_example = Reach-IsBounded late-Reach

abbrev closing : Loop
closing = record late { phase = draining }

abbrev closed : Loop
closed = record late { phase = returned; permits = 1; in_flight = [] }

closing-Steps : Steps 2 closing closed
closing-Steps = go (completes 7 [] [] refl) (go (returns refl refl) stay)

drain-returns_example :
    (2 ≤ suc (length closing.in_flight))
    × ((closed.phase ≡ returned) ⊎ ((l : Loop) × Step closed l))
drain-returns_example = drain-returns refl refl closing-Steps
