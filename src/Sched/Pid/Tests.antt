-- ===== src/Sched/Pid/Tests.antt =====
-- Process numbers on a fresh manager.
use oscomp.Common.{◌≡◌, refl, ◌≤◌, [], ◌∷◌, scan, if◌then◌else◌}
use oscomp.Common.Bits.{test_bit}
use oscomp.Common.Errno.{ok}
use oscomp.Bitmap.{is_set}
use oscomp.Sched.Pid.{PidManager, pid_init, pid_alloc}
use oscomp.Sched.Pid.Holders.{Reach, count, Reach-unique}

-- The calls of a first process that starts and ends.
abbrev after_first : PidManager
after_first = (pid_alloc pid_init).0

first_call : pid_alloc pid_init ≡ (after_first, ok 1)
unfolding pid_alloc pid_init scan is_set test_bit
first_call = refl

first_holds : Reach after_first (1 ∷ [])
first_holds = Reach.allocate Reach.start first_call

Reach-unique_example :
    (count 1 (1 ∷ []) ≤ 1) × (count 1 (1 ∷ []) ≡ (if is_set after_first.pid_map 1 then 1 else 0))
Reach-unique_example = Reach-unique 1 first_holds
