-- ===== src/Worker/Loop.antt =====
-- `TaskConsumerLoop::run` of crates/worker/src/consumer.rs: slots, shutdown and the drain, as steps.
pub mod Slots
pub mod Drain
use benri_stream.Prelude.{ℕ, suc, ◌+◌, Bool, true, false, List, [], ◌∷◌, ◌++◌, ◌≡◌, if◌then◌else◌}
use benri_stream.Task.Types.{TaskId}

-- Where the loop is: before the look at `shutdown`, in the first `select!`, in the second one with its
-- permit, in the sleep after a pop without a task, in the wait for the tasks in flight, or returned.
pub data Phase : Type 0 where
  top acquiring popping sleeping draining returned : Phase

-- `in_flight` are the spawned tasks that have not completed, each with its permit. `late_tasks` counts the tasks
-- that were spawned after the shutdown was signalled.
pub record Loop : Type 0 where
  pub phase : Phase
  pub shutdown : Bool
  pub permits : ℕ
  pub in_flight : List TaskId
  pub late_tasks : ℕ

unfoldable pub new : (max_concurrent_tasks : ℕ) → Loop
new max_concurrent_tasks = record {
  phase = top;
  shutdown = false;
  permits = max_concurrent_tasks;
  in_flight = [];
  late_tasks = 0;
}

-- A popped task runs with the permit of the loop.
unfoldable pub spawned : TaskId → Loop → Loop
spawned task_id l = record l {
  phase = top;
  in_flight = task_id ∷ l.in_flight;
  late_tasks = if l.shutdown then suc l.late_tasks else l.late_tasks;
}

-- The semaphore is never closed. When both branches of a `select!` are ready, either is taken.
pub data Step (l : Loop) : Loop → Type 0 where
  -- `*shutdown.borrow()`
  sees_shutdown : l.phase ≡ top → l.shutdown ≡ true → Step l (record l { phase = draining })
  goes_on : l.phase ≡ top → l.shutdown ≡ false → Step l (record l { phase = acquiring })
  -- `shutdown.changed()` in either `select!`: in the second one the permit is dropped.
  interrupted_acquiring :
      l.phase ≡ acquiring → l.shutdown ≡ true → Step l (record l { phase = top })
  interrupted_popping :
      l.phase ≡ popping
      → l.shutdown ≡ true
      → Step l (record l { phase = top; permits = suc l.permits })
  acquires :
      (rest : ℕ)
      → l.phase ≡ acquiring
      → l.permits ≡ suc rest
      → Step l (record l { phase = popping; permits = rest })
  -- The answers of `pop`: a task, or none or an error.
  pops : (task_id : TaskId) → l.phase ≡ popping → Step l (spawned task_id l)
  pops_nothing : l.phase ≡ popping → Step l (record l { phase = sleeping; permits = suc l.permits })
  wakes : l.phase ≡ sleeping → Step l (record l { phase = top })
  -- A task in flight completes or panics, and its permit is dropped.
  completes :
      (task_id : TaskId) (before behind : List TaskId)
      → l.in_flight ≡ before ++ task_id ∷ behind
      → Step l (record l { in_flight = before ++ behind; permits = suc l.permits })
  -- The signal comes once.
  signalled : l.shutdown ≡ false → Step l (record l { shutdown = true })
  returns : l.phase ≡ draining → l.in_flight ≡ [] → Step l (record l { phase = returned })

pub data Reach (max_concurrent_tasks : ℕ) : Loop → Type 0 where
  start : Reach max_concurrent_tasks (new max_concurrent_tasks)
  step : {l l' : Loop} → Reach max_concurrent_tasks l → Step l l' → Reach max_concurrent_tasks l'

-- Some number of steps.
pub data Steps : ℕ → Loop → Loop → Type 0 where
  stay : {l : Loop} → Steps 0 l l
  go : {n : ℕ} {l l' l'' : Loop} → Step l l' → Steps n l' l'' → Steps (suc n) l l''
