-- ===== src/Sched/Signal.antt =====
-- Signals of a process, kernel/sched/signal.c. The process table stands in kernel/sched/sched.c.
pub mod Mask
pub mod Send
pub mod Deliver
pub mod Syscalls
mod Tests
use oscomp.Common.{
  ℕ, zero, suc, ◌+◌, ◌-◌, ◌==◌, leb, ltb, Bool, true, false, not, ◌&&◌, ◌||◌, Option, none, some,
  List, get_or, set, replicate, if◌then◌else◌, scan,
}
use oscomp.Common.Errno.{Ret, ok, fail, einval, esrch, eintr, efault}
use oscomp.Common.Int.{ℤ, pos, negsuc}
use oscomp.Sched.SigSet.{
  SigSet, nsig, bad_signal, sigemptyset, add_signal, del_signal, has_signal, block_words,
  unblock_words,
}

abbrev pub sigkill : ℕ
sigkill = 9

abbrev pub sigstop : ℕ
sigstop = 19

-- `sa_handler`: SIG_DFL, SIG_IGN, or the address of a function.
pub data Handler : Type 0 where
  dfl ign : Handler
  custom : ℕ → Handler

-- `struct sigaction`
pub record SigAction : Type 0 where
  pub sa_handler : Handler
  pub sa_mask : SigSet
  pub sa_flags : ℕ

abbrev pub no_action : SigAction
no_action = record { sa_handler = dfl; sa_mask = replicate 16 0; sa_flags = 0 }

-- The fields of `struct task_struct` that concern signals.
pub record Task : Type 0 where
  pub pid : ℕ
  pub pending : SigSet
  pub blocked : SigSet
  pub sighand : List SigAction

abbrev pub nproc : ℕ
nproc = 32

-- `procs`, and the entry of the running process, if there is one.
pub record Tasks : Type 0 where
  pub procs : List (Option Task)
  pub running : Option ℕ

abbrev pub has_pid : Option Task → ℕ → Bool
has_pid none n = false
has_pid (some t) n = t.pid == n

-- The number of the entry; `none` is null.
pub find_process_by_pid : List (Option Task) → ℤ → Option ℕ
find_process_by_pid procs (negsuc _) = none
find_process_by_pid procs (pos n) =
    if n == 0 then none else scan (λ i. has_pid (get_or procs i none) n) nproc 0

abbrev pub add_pending : Option Task → ℕ → Option Task
add_pending none sig = none
add_pending (some t) sig = some (record t { pending = add_signal t.pending sig })

-- `do_send_signal` with the target in `p`. Killing and stopping are not implemented: nothing changes.
pub send_to : Tasks → Option ℕ → ℕ → Tasks × Ret
send_to s none sig = (s, fail esrch)
send_to s (some i) sig =
    if sig == sigkill || sig == sigstop
    then (s, ok 0)
    else (record s { procs = set s.procs i (add_pending (get_or s.procs i none) sig) }, ok 0)

abbrev pub target : Tasks → ℤ → Option ℕ
target s (negsuc n) = find_process_by_pid s.procs (negsuc n)
target s (pos n) = if n == 0 then s.running else find_process_by_pid s.procs (pos n)

pub do_send_signal : Tasks → ℤ → ℤ → Tasks × Ret
unfolding send_to find_process_by_pid
do_send_signal s pid (negsuc _) = (s, fail einval)
do_send_signal s pid (pos sig) =
    if bad_signal sig then (s, fail einval) else send_to s (target s pid) sig

-- Every group of processes is taken for the running process.
pub do_kill : Tasks → ℤ → ℤ → Tasks × Ret
unfolding do_send_signal
do_kill s (negsuc _) sig = do_send_signal s (pos 0) sig
do_kill s (pos zero) sig = do_send_signal s (pos 0) sig
do_kill s (pos (suc n)) sig = do_send_signal s (pos (suc n)) sig

-- What a call on the running process leaves: its result, the process, and what was stored through
-- the pointer for the old value, if anything was.
pub record Outcome (A : Type 0) : Type 0 where
  pub ret : Ret
  pub task : Option Task
  pub old : Option A

abbrev pub store {ℓ} : {A : Type ℓ} → Bool → A → Option A
store wanted a = if wanted then some a else none

abbrev pub with_action : Task → ℕ → Option SigAction → Task
with_action t sig none = t
with_action t sig (some a) = record t { sighand = set t.sighand (sig - 1) a }

-- `wanted` says that `oldact` is not null.
pub do_sigaction : Option Task → ℤ → Option SigAction → Bool → Outcome SigAction
do_sigaction none sig act wanted = record { ret = fail esrch; task = none; old = none }
do_sigaction (some t) (negsuc _) act wanted = record {
  ret = fail einval;
  task = some t;
  old = none;
}
do_sigaction (some t) (pos sig) act wanted =
    if bad_signal sig || (sig == sigkill || sig == sigstop)
    then record { ret = fail einval; task = some t; old = none }
    else record {
      ret = ok 0;
      task = some (with_action t sig act);
      old = store wanted (get_or t.sighand (sig - 1) no_action);
    }

-- The new mask for `how` 0, 1, 2; `none` is the default case.
pub new_blocked : SigSet → ℤ → SigSet → Option SigSet
new_blocked b (pos zero) s = some (block_words b s)
new_blocked b (pos (suc zero)) s = some (unblock_words b s)
new_blocked b (pos (suc (suc zero))) s = some s
new_blocked b _ s = none

abbrev pub never_blocked : SigSet → SigSet
never_blocked s = del_signal (del_signal s sigkill) sigstop

pub apply_mask : Task → Option SigSet → Option SigSet → Outcome SigSet
apply_mask t old none = record { ret = fail einval; task = some t; old = old }
apply_mask t old (some b) = record {
  ret = ok 0;
  task = some (record t { blocked = never_blocked b });
  old = old;
}

-- `set` may be null; `wanted` says that `oldset` is not.
pub do_sigprocmask : Option Task → ℤ → Option SigSet → Bool → Outcome SigSet
unfolding apply_mask new_blocked
do_sigprocmask none how s wanted = record { ret = fail esrch; task = none; old = none }
do_sigprocmask (some t) how none wanted = record {
  ret = ok 0;
  task = some t;
  old = store wanted t.blocked;
}
do_sigprocmask (some t) how (some s) wanted =
    apply_mask t (store wanted t.blocked) (new_blocked t.blocked how s)

-- The mask while the process waits. Waiting itself is not implemented.
pub suspended : Task → SigSet → Task
suspended t mask = record t { blocked = never_blocked mask }

pub do_sigsuspend : Option Task → Option SigSet → Ret × Option Task
unfolding suspended
do_sigsuspend none mask = (fail einval, none)
do_sigsuspend (some t) none = (fail einval, some t)
do_sigsuspend (some t) (some mask) =
    (fail eintr, some (record (suspended t mask) { blocked = t.blocked }))

abbrev pub deliverable : Task → ℕ → Bool
deliverable t sig = has_signal t.pending sig && not (has_signal t.blocked sig)

abbrev pub handler_of : Task → ℕ → Handler
handler_of t sig = (get_or t.sighand (sig - 1) no_action).sa_handler

abbrev pub take_pending : Task → ℕ → Task
take_pending t sig = record t { pending = del_signal t.pending sig }

-- The loop over `sig`, with `n` rounds left. The option is the signal whose handler is reached, where
-- the loop breaks off. The default actions are not implemented: none of them changes anything.
pub deliver_from : Task → ℕ → ℕ → Task × Option ℕ
deliver_from t zero sig = (t, none)
deliver_from t (suc n) sig = elim (deliverable t sig) [
  | false ↦ deliver_from t n (sig + 1)
  | true ↦ elim (handler_of t sig) [
    | ign ↦ deliver_from (take_pending t sig) n (sig + 1)
    | dfl ↦ deliver_from (take_pending t sig) n (sig + 1)
    | custom _ ↦ (take_pending t sig, some sig)
  ]
]

pub do_signal_delivery : Task → Task × Option ℕ
do_signal_delivery t = deliver_from t (nsig - 1) 1
