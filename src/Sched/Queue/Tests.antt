-- ===== src/Sched/Queue/Tests.antt =====
-- Three processes.
use oscomp.Common.{◌==◌, ◌≡◌, refl, false, some, [], ◌∷◌, arith}
use oscomp.Sched.Queue.{Scheduler, running, schedules, insert_to_ready_queue, alloc_empty_process}
use oscomp.Sched.Queue.Laws.{Runs, skip, schedules-Runs}

abbrev three : Scheduler
three = record {
  ready_queue = 1 ∷ 2 ∷ [];
  current = some 0;
  activity = λ _. running;
  ktrapframe = λ _. false;
}

-- A new process comes to the front.
insert_front : (insert_to_ready_queue three 3).ready_queue ≡ 3 ∷ 1 ∷ 2 ∷ []
unfolding insert_to_ready_queue
insert_front = refl

first_free : alloc_empty_process (λ i. i == 0) ≡ some 1
unfolding alloc_empty_process
first_free = refl

schedules-Runs_example :
    (s : Scheduler) × (schedules 2 three ≡ some s) × Runs s 0 (skip 2 (1 ∷ 2 ∷ []))
schedules-Runs_example =
    schedules-Runs 2 three 0 (1 ∷ 2 ∷ [])
      (record { current = refl; queue = refl; awake = refl; unsaved = refl }) (omega arith)
