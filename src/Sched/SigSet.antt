-- ===== src/Sched/SigSet.antt =====
-- Sets of signals, kernel/sched/signal.c: `__bits` is an array of 16 words of 64 bits. A set is never
-- null.
pub mod Laws
mod Tests
use oscomp.Common.{
  ℕ, ◌-◌, ◌/◌, ◌%◌, ◌^◌, ◌==◌, leb, ltb, Bool, true, false, ◌||◌, List, [], ◌∷◌, get_or, set,
  replicate, if◌then◌else◌, bit_or, bit_and,
}
use oscomp.Common.Bits.{test_bit, set_bit, clear_bit, complement}
use oscomp.Common.Errno.{Ret, ok, fail, einval}
use oscomp.Common.Int.{ℤ, pos, negsuc}

abbrev pub nsig : ℕ
nsig = 65

abbrev pub sigset_nwords : ℕ
sigset_nwords = 16

abbrev pub SigSet : Type 0
SigSet = List ℕ

pub sigemptyset : SigSet
sigemptyset = replicate sigset_nwords 0

pub sigfillset : SigSet
sigfillset = replicate sigset_nwords (2 ^ 64 - 1)

-- `signo <= 0 || signo >= NSIG`
abbrev pub bad_signal : ℕ → Bool
bad_signal n = n == 0 || leb nsig n

pub add_signal : SigSet → ℕ → SigSet
add_signal s n = set s ((n - 1) / 64) (set_bit (get_or s ((n - 1) / 64) 0) ((n - 1) % 64))

pub del_signal : SigSet → ℕ → SigSet
del_signal s n = set s ((n - 1) / 64) (clear_bit 64 (get_or s ((n - 1) / 64) 0) ((n - 1) % 64))

pub has_signal : SigSet → ℕ → Bool
has_signal s n = test_bit (get_or s ((n - 1) / 64) 0) ((n - 1) % 64)

pub sigaddset : SigSet → ℤ → Ret × SigSet
unfolding add_signal
sigaddset s (negsuc _) = (fail einval, s)
sigaddset s (pos n) = if bad_signal n then (fail einval, s) else (ok 0, add_signal s n)

pub sigdelset : SigSet → ℤ → Ret × SigSet
unfolding del_signal
sigdelset s (negsuc _) = (fail einval, s)
sigdelset s (pos n) = if bad_signal n then (fail einval, s) else (ok 0, del_signal s n)

pub sigismember : SigSet → ℤ → Ret
unfolding has_signal
sigismember s (negsuc _) = fail einval
sigismember s (pos n) = if bad_signal n then fail einval else ok (if has_signal s n then 1 else 0)

-- The loops of `do_sigprocmask` over the words of two sets.
pub zip_words : (ℕ → ℕ → ℕ) → SigSet → SigSet → SigSet
zip_words f [] ys = []
zip_words f (x ∷ xs) [] = x ∷ xs
zip_words f (x ∷ xs) (y ∷ ys) = f x y ∷ zip_words f xs ys

pub block_words : SigSet → SigSet → SigSet
unfolding zip_words
block_words = zip_words bit_or

pub unblock_words : SigSet → SigSet → SigSet
unfolding zip_words
unblock_words = zip_words (λ x y. bit_and x (complement 64 y))
