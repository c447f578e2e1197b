-- ===== src/Sched/Signal/Mask.antt =====
-- The signal mask and the actions of the running process.
use oscomp.Common.{
  ℕ, zero, suc, ◌-◌, ◌<◌, ◌==◌, Bool, false, not, ◌&&◌, ◌||◌, ◌≡◌, refl, Option, none, some, length,
  get_or, if◌then◌else◌, arith, get_or-set,
}
use oscomp.Common.Errno.{ok, fail, eintr}
use oscomp.Common.Int.{ℤ, pos, negsuc}
use oscomp.Sched.SigSet.{
  SigSet, nsig, bad_signal, del_signal, has_signal, block_words, unblock_words,
}
use oscomp.Sched.SigSet.Laws.{
  IsValid, has_signal-del_signal, del_signal-IsValid, block_words-IsValid, unblock_words-IsValid,
  has_signal-block_words, has_signal-unblock_words,
}
use oscomp.Sched.Signal.{
  Task, SigAction, store, with_action, no_action, sigkill, sigstop, never_blocked, new_blocked,
  apply_mask, do_sigaction, do_sigprocmask, suspended, do_sigsuspend,
}

-- SIGKILL and SIGSTOP.
abbrev pub is_unblockable : ℕ → Bool
is_unblockable n = n == sigkill || n == sigstop

has_signal-never_blocked :
    (s : SigSet) (n : ℕ)
    → IsValid s
    → bad_signal n ≡ false
    → has_signal (never_blocked s) n ≡ (not (is_unblockable n) && has_signal s n)
has_signal-never_blocked s n v good =
    let low : 0 < n = ground arith in
    let high : n < nsig = ground arith in
    ground (
      arith,
      has_signal-del_signal (del_signal s sigkill) sigstop n
          (del_signal-IsValid s sigkill v (omega arith)) (omega arith) (omega arith) low high,
      has_signal-del_signal s sigkill n v (omega arith) (omega arith) low high,
    )

never_blocked-IsValid : (s : SigSet) → IsValid s → IsValid (never_blocked s)
never_blocked-IsValid s v =
    del_signal-IsValid (del_signal s sigkill) sigstop (del_signal-IsValid s sigkill v (omega arith))
      (omega arith)

-- Membership in the new mask for SIG_BLOCK, SIG_UNBLOCK and SIG_SETMASK.
abbrev pub combine : ℕ → Bool → Bool → Bool
combine zero old new = old || new
combine (suc zero) old new = old && not new
combine (suc (suc _)) old new = new

-- With `how` one of the three, `do_sigprocmask` returns 0, hands out the old mask if it is wanted, and
-- leaves a valid mask with the members that `how` asks for, save SIGKILL and SIGSTOP. Nothing else of
-- the process changes.
pub do_sigprocmask-combine :
    (t : Task) (how n : ℕ) (s : SigSet) (wanted : Bool)
    → IsValid t.blocked
    → IsValid s
    → how < 3
    → bad_signal n ≡ false
    → (b : SigSet) × (do_sigprocmask (some t) (pos how) (some s) wanted ≡ record {
      ret = ok 0;
      task = some (record t { blocked = b });
      old = store wanted t.blocked;
    })
      × IsValid b
      × (has_signal b n
          ≡ (not (is_unblockable n) && combine how (has_signal t.blocked n) (has_signal s n)))
unfolding do_sigprocmask
do_sigprocmask-combine t zero n s wanted v w h good =
    let b = block_words t.blocked s in
    let k = block_words-IsValid t.blocked s v w in
    (
      never_blocked b,
      refl,
      never_blocked-IsValid b k,
      ground (
        arith,
        has_signal-never_blocked b n k good,
        has_signal-block_words t.blocked s n v w (ground arith),
      ),
    )
do_sigprocmask-combine t (suc zero) n s wanted v w h good =
    let b = unblock_words t.blocked s in
    let k = unblock_words-IsValid t.blocked s v w in
    (
      never_blocked b,
      refl,
      never_blocked-IsValid b k,
      ground (
        arith,
        has_signal-never_blocked b n k good,
        has_signal-unblock_words t.blocked s n v w (ground arith),
      ),
    )
do_sigprocmask-combine t (suc (suc zero)) n s wanted v w h good =
    (never_blocked s, refl, never_blocked-IsValid s w, has_signal-never_blocked s n w good)
do_sigprocmask-combine t (suc (suc (suc k))) n s wanted v w h good = absurd (omega arith)

-- The process can be killed and stopped.
pub record IsSafe (t : Task) : Type 0 where
  pub valid : IsValid t.blocked
  pub kill : has_signal t.blocked sigkill ≡ false
  pub stop : has_signal t.blocked sigstop ≡ false

abbrev pub All {ℓ κ} : {A : Type ℓ} → (A → Type κ) → Option A → Type κ
All P none = Unit
All P (some a) = P a

never_blocked-IsSafe :
    (t : Task) (s : SigSet) → IsValid s → IsSafe (record t { blocked = never_blocked s })
never_blocked-IsSafe t s v = record {
  valid = never_blocked-IsValid s v;
  kill = ground (arith, has_signal-never_blocked s sigkill v (ground arith));
  stop = ground (arith, has_signal-never_blocked s sigstop v (ground arith));
}

apply_mask-IsSafe :
    (t : Task) (old o : Option SigSet)
    → IsSafe t
    → All IsValid o
    → All IsSafe (apply_mask t old o).task
unfolding apply_mask
apply_mask-IsSafe t old none safe v = safe
apply_mask-IsSafe t old (some b) safe v = never_blocked-IsSafe t b v

new_blocked-IsValid :
    (b s : SigSet) (how : ℤ) → IsValid b → IsValid s → All IsValid (new_blocked b how s)
unfolding new_blocked
new_blocked-IsValid b s (pos zero) v w = block_words-IsValid b s v w
new_blocked-IsValid b s (pos (suc zero)) v w = unblock_words-IsValid b s v w
new_blocked-IsValid b s (pos (suc (suc zero))) v w = w
new_blocked-IsValid b s (pos (suc (suc (suc k)))) v w = tt
new_blocked-IsValid b s (negsuc k) v w = tt

-- Whatever `how` and the set are, no call of `do_sigprocmask` blocks SIGKILL or SIGSTOP.
pub do_sigprocmask-IsSafe :
    (t : Task) (how : ℤ) (s : Option SigSet) (wanted : Bool)
    → IsSafe t
    → All IsValid s
    → All IsSafe (do_sigprocmask (some t) how s wanted).task
unfolding do_sigprocmask
do_sigprocmask-IsSafe t how none wanted safe v = safe
do_sigprocmask-IsSafe t how (some s) wanted safe v =
    apply_mask-IsSafe t (store wanted t.blocked) (new_blocked t.blocked how s) safe
      (new_blocked-IsValid t.blocked s how safe.valid v)

-- `do_sigsuspend` returns -EINTR with the process as it was; while it waits, exactly the members of
-- the given mask are blocked, save SIGKILL and SIGSTOP.
pub do_sigsuspend-restores :
    (t : Task) (mask : SigSet) (n : ℕ)
    → IsValid mask
    → bad_signal n ≡ false
    → (do_sigsuspend (some t) (some mask) ≡ (fail eintr, some t))
      × (has_signal (suspended t mask).blocked n ≡ (not (is_unblockable n) && has_signal mask n))
unfolding do_sigsuspend
do_sigsuspend-restores t mask n v good = (refl, has_signal-never_blocked mask n v good)

-- For a signal in [1, NSIG) other than SIGKILL and SIGSTOP, `do_sigaction` returns 0, hands out the
-- old action if it is wanted, sets the new one if there is one, and leaves every other signal's action.
pub do_sigaction-sets :
    (t : Task) (sig m : ℕ) (a : SigAction) (wanted : Bool)
    → length t.sighand ≡ 64
    → bad_signal sig ≡ false
    → bad_signal m ≡ false
    → is_unblockable sig ≡ false
    → (u : Task) × (do_sigaction (some t) (pos sig) (some a) wanted ≡ record {
      ret = ok 0;
      task = some u;
      old = store wanted (get_or t.sighand (sig - 1) no_action);
    })
      × (get_or u.sighand (m - 1) no_action
          ≡ (if sig == m then a else get_or t.sighand (m - 1) no_action))
      × (u.blocked ≡ t.blocked)
      × (u.pending ≡ t.pending)
unfolding do_sigaction
do_sigaction-sets t sig m a wanted size hs hm hu = (
  with_action t sig (some a),
  rw (hs, hu) refl,
  ground (arith, get_or-set t.sighand (sig - 1) (m - 1) a no_action (ground arith)),
  refl,
  refl,
)
