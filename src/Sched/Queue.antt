-- ===== src/Sched/Queue.antt =====
-- The ready queue and the choice of the next process, kernel/sched/sched.c. A process is named by its
-- place in the table.
use oscomp.Common.{
  ℕ, zero, suc, ◌==◌, ◌||◌, not, ◌&&◌, Bool, true, false, if◌then◌else◌, Option, none, some, List,
  [], ◌∷◌, scan,
}
mod Laws
mod Tests

-- The values of `state` that schedule tells apart.
pub data Activity : Type 0 where
  running interruptible uninterruptible : Activity

abbrev pub is_waiting : Activity → Bool
is_waiting running = false
is_waiting interruptible = true
is_waiting uninterruptible = true

-- `ktrapframe` says of a process whether it has one.
pub record Scheduler : Type 0 where
  pub ready_queue : List ℕ
  pub current : Option ℕ
  pub activity : ℕ → Activity
  pub ktrapframe : ℕ → Bool

abbrev pub nprocs : ℕ
nprocs = 32

-- The first free place of the table, where `used` says which are taken; none is a panic.
pub alloc_empty_process : (ℕ → Bool) → Option ℕ
unfolding scan
alloc_empty_process used = scan (λ i. not (used i)) nprocs 0

pub insert_to_ready_queue : Scheduler → ℕ → Scheduler
insert_to_ready_queue s p = record s { ready_queue = p ∷ s.ready_queue }

abbrev pub with_frame : (ℕ → Bool) → ℕ → Bool → ℕ → Bool
with_frame f p b q = if p == q then b else f q

-- A current process that waits keeps its registers.
abbrev pub save_registers : Scheduler → Option ℕ → Scheduler
save_registers s none = s
save_registers s (some p) =
    if is_waiting (s.activity p) && not (s.ktrapframe p)
    then record s { ktrapframe = with_frame s.ktrapframe p true }
    else s

pub switch_to : Scheduler → ℕ → Scheduler
switch_to s p = record s { current = some p }

-- The end of schedule, where `p` was running when it began.
abbrev pub resume : Scheduler → ℕ → Scheduler
resume s p =
    if s.ktrapframe p
    then record s { ktrapframe = with_frame s.ktrapframe p false }
    else switch_to s p

-- Without a process that is ready, or without one that runs, schedule reads memory that is no
-- process: the result is none.
abbrev pub choose : Scheduler → Option ℕ → List ℕ → Option Scheduler
choose s cur [] = none
choose s none (q ∷ l) = none
choose s (some p) (q ∷ l) = some (resume (record s { current = some q; ready_queue = l }) p)

pub schedule : Scheduler → Option Scheduler
unfolding switch_to
schedule s = choose (save_registers s s.current) s.current s.ready_queue

abbrev pub again : Option Scheduler → (Scheduler → Option Scheduler) → Option Scheduler
again none f = none
again (some s) f = f s

-- Calls of schedule, one after the other.
pub schedules : ℕ → Scheduler → Option Scheduler
unfolding schedule
schedules zero s = some s
schedules (suc n) s = again (schedule s) (λ s'. schedules n s')
