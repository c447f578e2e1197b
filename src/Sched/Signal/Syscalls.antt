-- ===== src/Sched/Signal/Syscalls.antt =====
-- The system calls on signals, kernel/sched/signal.c. `arrives` says whether copy_from_user succeeds,
-- and `leaves` whether copy_to_user does.
use oscomp.Common.{Bool, true, false, not, ◌&&◌, Option, none, some, if◌then◌else◌}
use oscomp.Common.Errno.{Ret, ok, fail, efault}
use oscomp.Common.Int.{ℤ}
use oscomp.Sched.SigSet.{SigSet}
use oscomp.Sched.Signal.{
  SigAction, Task, Tasks, Outcome, do_kill, do_sigaction, do_sigprocmask, do_sigsuspend,
}

pub sys_kill : Tasks → ℤ → ℤ → Tasks × Ret
unfolding do_kill
sys_kill s pid sig = do_kill s pid sig

-- The old value goes back to user space, if it is wanted and the call succeeded. What was stored is
-- lost where the copy fails.
pub copied_out : {A : Type 0} → Outcome A → Bool → Bool → Outcome A
copied_out o wanted leaves = elim o.ret [
  | fail e ↦ o
  | ok n ↦
      if wanted && not leaves then record { ret = fail efault; task = o.task; old = none } else o
]

abbrev pub is_given {ℓ} : {A : Type ℓ} → Option A → Bool
is_given none = false
is_given (some _) = true

pub sys_sigaction : Option Task → ℤ → Option SigAction → Bool → Bool → Bool → Outcome SigAction
unfolding copied_out do_sigaction
sys_sigaction t sig act wanted arrives leaves =
    if is_given act && not arrives
    then record { ret = fail efault; task = t; old = none }
    else copied_out (do_sigaction t sig act wanted) wanted leaves

pub sys_sigprocmask : Option Task → ℤ → Option SigSet → Bool → Bool → Bool → Outcome SigSet
unfolding copied_out do_sigprocmask
sys_sigprocmask t how set wanted arrives leaves =
    if is_given set && not arrives
    then record { ret = fail efault; task = t; old = none }
    else copied_out (do_sigprocmask t how set wanted) wanted leaves

pub sys_sigsuspend : Option Task → Option SigSet → Bool → Ret × Option Task
unfolding do_sigsuspend
sys_sigsuspend t none arrives = (fail efault, t)
sys_sigsuspend t (some mask) arrives =
    if arrives then do_sigsuspend t (some mask) else (fail efault, t)
