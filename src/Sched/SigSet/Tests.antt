-- ===== src/Sched/SigSet/Tests.antt =====
-- The set of the signals 2 and 15.
use oscomp.Common.{arith}
use oscomp.Sched.SigSet.{SigSet, add_signal, sigemptyset}
use oscomp.Sched.SigSet.Laws.{IsValid, add_signal-IsValid, sigemptyset-IsValid}

abbrev two : SigSet
two = add_signal (add_signal sigemptyset 2) 15

two-IsValid : IsValid two
two-IsValid =
    add_signal-IsValid (add_signal sigemptyset 2) 15
      (add_signal-IsValid sigemptyset 2 sigemptyset-IsValid.0 (omega arith)) (omega arith)
