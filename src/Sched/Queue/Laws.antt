-- ===== src/Sched/Queue/Laws.antt =====
-- Who runs after schedule.
use oscomp.Common.{
  ℕ, zero, suc, ◌≤◌, not, Bool, false, Option, some, List, [], ◌∷◌, length, ◌≡◌, refl, ◌∙◌, arith,
  First, scan-First,
}
use oscomp.Sched.Queue.{
  Scheduler, is_waiting, save_registers, choose, schedule, schedules, switch_to, again,
  alloc_empty_process, nprocs,
}

abbrev pub skip : ℕ → List ℕ → List ℕ
skip zero l = l
skip (suc n) [] = []
skip (suc n) (x ∷ l) = skip n l

-- The process `p` runs, does not wait and has no registers saved; the queue is `l`.
pub record Runs (s : Scheduler) (p : ℕ) (l : List ℕ) : Type 0 where
  pub current : s.current ≡ some p
  pub queue : s.ready_queue ≡ l
  pub awake : is_waiting (s.activity p) ≡ false
  pub unsaved : s.ktrapframe p ≡ false

chosen :
    (s : Scheduler) (p q : ℕ) (l queue : List ℕ) (cur : Option ℕ)
    → cur ≡ some p
    → queue ≡ q ∷ l
    → is_waiting (s.activity p) ≡ false
    → s.ktrapframe p ≡ false
    → choose (save_registers s cur) cur queue
      ≡ some (record s { current = some p; ready_queue = l })
unfolding switch_to
chosen s p q l queue cur c e awake unsaved = rw (c, e, awake, unsaved) refl

schedule-Runs :
    (s : Scheduler) (p q : ℕ) (l : List ℕ)
    → Runs s p (q ∷ l)
    → (s' : Scheduler) × (schedule s ≡ some s') × Runs s' p l
unfolding schedule
schedule-Runs s p q l v = (
  record s { current = some p; ready_queue = l },
  chosen s p q l s.ready_queue s.current v.current v.queue v.awake v.unsaved,
  record { current = refl; queue = refl; awake = v.awake; unsaved = v.unsaved },
)

then_again :
    (r : Option Scheduler) (s : Scheduler) (f : Scheduler → Option Scheduler)
    → r ≡ some s
    → again r f ≡ f s
then_again r s f e = rw e refl

-- While a process runs that does not wait and has no registers saved, it is still the one that
-- runs after any number of calls of schedule up to the length of the ready queue, and each call
-- has dropped the first process of the queue.
pub schedules-Runs :
    (n : ℕ) (s : Scheduler) (p : ℕ) (l : List ℕ)
    → Runs s p l
    → n ≤ length l
    → (s' : Scheduler) × (schedules n s ≡ some s') × Runs s' p (skip n l)
unfolding schedules
schedules-Runs zero s p l v le = (s, refl, v)
schedules-Runs (suc n) s p [] v le = absurd (omega arith)
schedules-Runs (suc n) s p (q ∷ l) v le =
    let (t, e, w) = schedule-Runs s p q l v in
    let (u, f, x) = schedules-Runs n t p l w (omega arith) in
    (u, then_again (schedule s) t (λ s'. schedules n s') e ∙ f, x)

-- alloc_empty_process gives the first free place of the table.
pub alloc_empty_process-First :
    (used : ℕ → Bool) → First (λ i. not (used i)) 0 nprocs (alloc_empty_process used)
unfolding alloc_empty_process
alloc_empty_process-First used = scan-First (λ i. not (used i)) nprocs 0 nprocs (omega arith)
