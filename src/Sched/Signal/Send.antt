-- ===== src/Sched/Signal/Send.antt =====
-- Sending a signal: who gets it.
use oscomp.Common.{
  ℕ, zero, suc, ◌<◌, ◌==◌, true, false, ◌≡◌, refl, Option, none, some, List, length, get_or,
  if◌then◌else◌, arith, get_or-set, First, scan-First,
}
use oscomp.Common.Errno.{ok}
use oscomp.Common.Int.{ℤ, pos, negsuc}
use oscomp.Sched.SigSet.{bad_signal, add_signal, has_signal}
use oscomp.Sched.SigSet.Laws.{IsValid, has_signal-add_signal}
use oscomp.Sched.Signal.{
  Task, Tasks, nproc, has_pid, find_process_by_pid, target, send_to, do_send_signal, do_kill,
}
use oscomp.Sched.Signal.Mask.{is_unblockable}

-- The entry that a search for `pid` gives: the first with that number, or none where no entry has it.
abbrev pub Found : List (Option Task) → ℤ → Option ℕ → Type 0
Found procs (negsuc _) r = r ≡ none
Found procs (pos zero) r = r ≡ none
Found procs (pos (suc n)) r = First (λ i. has_pid (get_or procs i none) (suc n)) 0 nproc r

-- `find_process_by_pid` finds the first process with a positive number, and no other.
pub find_process_by_pid-Found :
    (procs : List (Option Task)) (pid : ℤ) → Found procs pid (find_process_by_pid procs pid)
unfolding find_process_by_pid
find_process_by_pid-Found procs (negsuc n) = refl
find_process_by_pid-Found procs (pos zero) = refl
find_process_by_pid-Found procs (pos (suc n)) =
    let nonzero : (suc n == 0) ≡ false = ground arith in
    rw nonzero (scan-First (λ i. has_pid (get_or procs i none) (suc n)) nproc 0 nproc refl)

-- A signal in [1, NSIG) other than SIGKILL and SIGSTOP becomes pending in its target and in no other
-- process; everything else of the target, its other pending signals too, is as before.
pub do_send_signal-pending :
    (s : Tasks) (pid : ℤ) (sig m i j : ℕ) (t : Task)
    → bad_signal sig ≡ false
    → bad_signal m ≡ false
    → is_unblockable sig ≡ false
    → target s pid ≡ some i
    → i < length s.procs
    → get_or s.procs i none ≡ some t
    → IsValid t.pending
    → let (s', r) = do_send_signal s pid (pos sig) in
      (r ≡ ok 0)
      × (get_or s'.procs j none ≡ (
          if i == j
          then some (record t { pending = add_signal t.pending sig })
          else get_or s.procs j none))
      × (has_signal (add_signal t.pending sig) m
          ≡ (if sig == m then true else has_signal t.pending m))
      × (s'.running ≡ s.running)
unfolding do_send_signal send_to
do_send_signal-pending s pid sig m i j t hs hm hu at lt here v =
    rw (hs, at)
      (rw (hu, here)
        (
          refl,
          get_or-set s.procs i j (some (record t { pending = add_signal t.pending sig })) none lt,
          has_signal-add_signal t.pending sig m v (ground arith) (ground arith) (ground arith)
              (ground arith),
          refl,
        ))

-- SIGKILL and SIGSTOP have no effect: the call reports success and nothing changes, whoever the
-- target is.
pub do_kill_unblockable :
    (s : Tasks) (n sig i : ℕ)
    → is_unblockable sig ≡ true
    → target s (pos n) ≡ some i
    → do_kill s (pos n) (pos sig) ≡ (s, ok 0)
unfolding do_kill do_send_signal send_to
do_kill_unblockable s zero sig i h at =
    let good : bad_signal sig ≡ false = ground arith in rw (good, at) (rw h refl)
do_kill_unblockable s (suc n) sig i h at =
    let good : bad_signal sig ≡ false = ground arith in rw (good, at) (rw h refl)

-- A negative number is taken for the running process, as 0 is.
pub do_kill_group : (s : Tasks) (n : ℕ) (sig : ℤ) → do_kill s (negsuc n) sig ≡ do_kill s (pos 0) sig
unfolding do_kill
do_kill_group s n sig = refl
