-- ===== src/Sched/Signal/Tests.antt =====
-- A process with the signals 2 and 15 pending and a handler for 15, alone in its table.
use oscomp.Common.{
  ◌≡◌, refl, ◌∷◌, ◌++◌, replicate, if◌then◌else◌, arith, some, none, false, ◌&&◌, First,
}
use oscomp.Sched.SigSet.{SigSet, add_signal, has_signal, sigemptyset, nsig}
use oscomp.Sched.SigSet.Laws.{IsValid, add_signal-IsValid, sigemptyset-IsValid}
use oscomp.Sched.Signal.{Task, Tasks, SigAction, no_action, custom, do_signal_delivery, deliverable}
use oscomp.Sched.Signal.Mask.{IsSafe}
use oscomp.Sched.Signal.Deliver.{stops, looked_at, do_signal_delivery-takes}

abbrev two : SigSet
two = add_signal (add_signal sigemptyset 2) 15

two-IsValid : IsValid two
two-IsValid =
    add_signal-IsValid (add_signal sigemptyset 2) 15
      (add_signal-IsValid sigemptyset 2 sigemptyset-IsValid.0 (omega arith)) (omega arith)

abbrev caught : SigAction
caught = record no_action { sa_handler = custom 4096 }

abbrev task : Task
task = record {
  pid = 1;
  pending = two;
  blocked = sigemptyset;
  sighand = replicate 14 no_action ++ caught ∷ replicate 49 no_action;
}

abbrev tasks : Tasks
tasks = record { procs = some task ∷ replicate 31 none; running = some 0 }

task-IsSafe : IsSafe task
task-IsSafe = record {
  valid = sigemptyset-IsValid.0;
  kill = sigemptyset-IsValid.1 9;
  stop = sigemptyset-IsValid.1 19;
}

do_signal_delivery-takes_example :
    let (u, r) = do_signal_delivery task in
    First (stops task) 1 nsig r
    × (has_signal u.pending 2
        ≡ (if looked_at r 2 && deliverable task 2 then false else has_signal two 2))
    × (u.blocked ≡ sigemptyset)
    × (u.sighand ≡ task.sighand)
do_signal_delivery-takes_example = do_signal_delivery-takes task 2 two-IsValid refl
