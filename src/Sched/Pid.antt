-- ===== src/Sched/Pid.antt =====
-- The allocator of process numbers, kernel/sched/pid.c. The spinlock makes each call one step; the
-- model has no lock.
pub mod Laws
pub mod Holders
mod Tests
use oscomp.Common.{
  ℕ, ◌+◌, ◌%◌, ◌/◌, ◌==◌, leb, Bool, not, ◌&&◌, ◌||◌, Option, none, some, List, replicate,
  if◌then◌else◌, scan,
}
use oscomp.Common.Errno.{Ret, ok, fail, eagain}
use oscomp.Common.Int.{ℤ, pos, negsuc}
use oscomp.Bitmap.{setbit, clearbit, is_set}

abbrev pub pid_max : ℕ
pid_max = 8192

-- `struct pid_manager`
pub record PidManager : Type 0 where
  pub next_pid : ℕ
  pub pid_map : List ℕ

pub pid_init : PidManager
pid_init = record { next_pid = 1; pid_map = replicate (pid_max / 8) 0 }

-- `current_pid` in round `i` of the loop
abbrev pub current_pid : PidManager → ℕ → ℕ
current_pid m i = (m.next_pid + i) % pid_max

-- Round `i` returns.
abbrev pub takes : PidManager → ℕ → Bool
takes m i = not (current_pid m i == 0) && not (is_set m.pid_map (current_pid m i))

-- The return in round `i`, and the one behind the loop.
pub pid_return : PidManager → Option ℕ → PidManager × Ret
pid_return m (some i) = (
  record {
    next_pid = (current_pid m i + 1) % pid_max;
    pid_map = setbit m.pid_map (current_pid m i);
  },
  ok (current_pid m i),
)
pid_return m none = (m, fail eagain)

pub pid_alloc : PidManager → PidManager × Ret
unfolding pid_return
pid_alloc m = pid_return m (scan (takes m) pid_max 0)

-- `none` is the panic.
pub pid_free : PidManager → ℤ → Option PidManager
pid_free m (negsuc _) = none
pid_free m (pos pid) =
    if pid == 0 || leb pid_max pid
    then none
    else some (record m { pid_map = clearbit m.pid_map pid })
