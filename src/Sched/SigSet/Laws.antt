-- ===== src/Sched/SigSet/Laws.antt =====
-- A set of signals as the set of its members.
use oscomp.Common.{
  ℕ, zero, suc, ◌-◌, ◌/◌, ◌%◌, ◌^◌, ◌<◌, ◌==◌, true, false, not, ◌&&◌, ◌||◌, ◌≡◌, refl, ap,
  get_or_past, [], ◌∷◌, length, get_or, set, if◌then◌else◌, arith, get_or-set, length-set,
  get_or-replicate, bit_or, bit_and,
}
use oscomp.Common.Bits.{
  set_bit, clear_bit, complement, test_bit-set_bit, test_bit-clear_bit, test_bit-zero, set_bit-lt,
  clear_bit-le, test_bit-bit_or, test_bit-bit_and-not, bit_or_fits, bit_and-le_left,
}
use native.Mathlib.Decide.{dec_lt}
use oscomp.Common.Errno.{ok}
use oscomp.Common.Int.{pos}
use oscomp.Sched.SigSet.{
  SigSet, nsig, sigset_nwords, bad_signal, sigemptyset, add_signal, del_signal, has_signal,
  sigaddset, sigdelset, sigismember, zip_words, block_words, unblock_words,
}

-- The words of a set fit 64 bits.
pub record IsValid (s : SigSet) : Type 0 where
  pub size : length s ≡ sigset_nwords
  pub fits : (i : ℕ) → get_or s i 0 < 2 ^ 64

word_index : (n : ℕ) → 0 < n → n < nsig → (n - 1) / 64 ≡ 0
word_index n h g = omega arith

same_signal :
    (n m : ℕ) → 0 < n → 0 < m → n < nsig → m < nsig → ((n - 1) % 64 == (m - 1) % 64) ≡ (n == m)
same_signal n m a b c d = ground arith

-- Adding a signal makes it a member and changes no other.
pub has_signal-add_signal :
    (s : SigSet) (n m : ℕ)
    → IsValid s
    → 0 < n
    → n < nsig
    → 0 < m
    → m < nsig
    → has_signal (add_signal s n) m ≡ (if n == m then true else has_signal s m)
unfolding has_signal add_signal
has_signal-add_signal s n m v a b c d =
    let w = get_or s 0 0 in
    rw (word_index n a b, word_index m c d)
      (ground (
        arith,
        get_or-set s 0 0 (set_bit w ((n - 1) % 64)) 0 (omega (arith, v.size)),
        test_bit-set_bit w ((n - 1) % 64) ((m - 1) % 64),
      ))

pub has_signal-del_signal :
    (s : SigSet) (n m : ℕ)
    → IsValid s
    → 0 < n
    → n < nsig
    → 0 < m
    → m < nsig
    → has_signal (del_signal s n) m ≡ (if n == m then false else has_signal s m)
unfolding has_signal del_signal
has_signal-del_signal s n m v a b c d =
    let w = get_or s 0 0 in
    rw (word_index n a b, word_index m c d)
      (ground (
        arith,
        get_or-set s 0 0 (clear_bit 64 w ((n - 1) % 64)) 0 (omega (arith, v.size)),
        test_bit-clear_bit 64 w ((n - 1) % 64) ((m - 1) % 64) (omega arith) (omega arith),
      ))

set-IsValid :
    (s : SigSet) (k x : ℕ) → IsValid s → k < sigset_nwords → x < 2 ^ 64 → IsValid (set s k x)
set-IsValid s k x v h g = record {
  size = omega (arith, v.size, length-set s k x);
  fits = λ i. ground (arith, get_or-set s k i x 0 (omega (arith, v.size)), v.fits i);
}

pub add_signal-IsValid : (s : SigSet) (n : ℕ) → IsValid s → n < nsig → IsValid (add_signal s n)
unfolding add_signal
add_signal-IsValid s n v h =
    set-IsValid s ((n - 1) / 64) (set_bit (get_or s ((n - 1) / 64) 0) ((n - 1) % 64)) v
      (omega arith)
      (set_bit-lt 64 (get_or s ((n - 1) / 64) 0) ((n - 1) % 64) (v.fits ((n - 1) / 64))
        (omega arith))

pub del_signal-IsValid : (s : SigSet) (n : ℕ) → IsValid s → n < nsig → IsValid (del_signal s n)
unfolding del_signal
del_signal-IsValid s n v h =
    let w = get_or s ((n - 1) / 64) 0 in
    set-IsValid s ((n - 1) / 64) (clear_bit 64 w ((n - 1) % 64)) v (omega arith)
      (omega (arith, clear_bit-le 64 w ((n - 1) % 64), v.fits ((n - 1) / 64)))

-- A loop over the words works on each word.
get_or-zip_words :
    (f : ℕ → ℕ → ℕ) (xs ys : SigSet) (i : ℕ)
    → length xs ≡ length ys
    → i < length xs
    → get_or (zip_words f xs ys) i 0 ≡ f (get_or xs i 0) (get_or ys i 0)
unfolding zip_words
get_or-zip_words f [] ys i h g = absurd (omega arith)
get_or-zip_words f (x ∷ xs) [] i h g = absurd (omega arith)
get_or-zip_words f (x ∷ xs) (y ∷ ys) zero h g = refl
get_or-zip_words f (x ∷ xs) (y ∷ ys) (suc i) h g =
    get_or-zip_words f xs ys i (omega arith) (omega arith)

length-zip_words : (f : ℕ → ℕ → ℕ) (xs ys : SigSet) → length (zip_words f xs ys) ≡ length xs
unfolding zip_words
length-zip_words f [] ys = refl
length-zip_words f (x ∷ xs) [] = refl
length-zip_words f (x ∷ xs) (y ∷ ys) = ap suc (length-zip_words f xs ys)

zip_words-IsValid :
    (f : ℕ → ℕ → ℕ) (xs ys : SigSet)
    → ((a b : ℕ) → a < 2 ^ 64 → b < 2 ^ 64 → f a b < 2 ^ 64)
    → IsValid xs
    → IsValid ys
    → IsValid (zip_words f xs ys)
zip_words-IsValid f xs ys keep v w = record {
  size = omega (arith, length-zip_words f xs ys, v.size);
  fits = λ i. elim (dec_lt i (length xs)) [
    | yes p ↦
        rw (get_or-zip_words f xs ys i (omega (arith, v.size, w.size)) p)
          (keep (get_or xs i 0) (get_or ys i 0) (v.fits i) (w.fits i))
    | no p ↦
        rw (get_or_past (zip_words f xs ys) i 0 (omega (arith, length-zip_words f xs ys)))
          (omega arith)
  ];
}

pub block_words-IsValid : (s t : SigSet) → IsValid s → IsValid t → IsValid (block_words s t)
unfolding block_words
block_words-IsValid s t v w = zip_words-IsValid bit_or s t (bit_or_fits 64) v w

pub unblock_words-IsValid : (s t : SigSet) → IsValid s → IsValid t → IsValid (unblock_words s t)
unfolding unblock_words
unblock_words-IsValid s t v w =
    zip_words-IsValid (λ x y. bit_and x (complement 64 y)) s t
      (λ a b h g. omega (arith, bit_and-le_left a (complement 64 b))) v w

-- Blocking the members of `t` is a union, unblocking them a difference.
pub has_signal-block_words :
    (s t : SigSet) (n : ℕ)
    → IsValid s
    → IsValid t
    → n < nsig
    → has_signal (block_words s t) n ≡ (has_signal s n || has_signal t n)
unfolding has_signal block_words
has_signal-block_words s t n v w h =
    let k = (n - 1) / 64 in
    rw (get_or-zip_words bit_or s t k (omega (arith, v.size, w.size)) (omega (arith, v.size)))
      (test_bit-bit_or (get_or s k 0) (get_or t k 0) ((n - 1) % 64))

pub has_signal-unblock_words :
    (s t : SigSet) (n : ℕ)
    → IsValid s
    → IsValid t
    → n < nsig
    → has_signal (unblock_words s t) n ≡ (has_signal s n && not (has_signal t n))
unfolding has_signal unblock_words
has_signal-unblock_words s t n v w h =
    let k = (n - 1) / 64 in
    rw
      (get_or-zip_words (λ x y. bit_and x (complement 64 y)) s t k (omega (arith, v.size, w.size))
        (omega (arith, v.size)))
      (test_bit-bit_and-not 64 (get_or s k 0) (get_or t k 0) ((n - 1) % 64) (w.fits k)
        (omega arith))

pub sigemptyset-IsValid : IsValid sigemptyset × ((n : ℕ) → has_signal sigemptyset n ≡ false)
unfolding sigemptyset has_signal
sigemptyset-IsValid = (
  record { size = refl; fits = λ i. rw (get_or-replicate {A = ℕ} sigset_nwords i 0) (omega arith) },
  λ n. rw (get_or-replicate {A = ℕ} sigset_nwords ((n - 1) / 64) 0) (test_bit-zero ((n - 1) % 64)),
)

-- For signals in [1, NSIG), `sigaddset` and `sigdelset` return 0, and `sigismember` then finds the
-- signal that was added, does not find the one that was deleted, and answers for every other signal as
-- before.
pub sigismember-sigaddset :
    (s : SigSet) (n m : ℕ)
    → IsValid s
    → bad_signal n ≡ false
    → bad_signal m ≡ false
    → let (a, added) = sigaddset s (pos n) in
      let (d, deleted) = sigdelset s (pos n) in
      (a ≡ ok 0)
      × (d ≡ ok 0)
      × (sigismember added (pos m) ≡ (if n == m then ok 1 else sigismember s (pos m)))
      × (sigismember deleted (pos m) ≡ (if n == m then ok 0 else sigismember s (pos m)))
unfolding sigaddset sigdelset sigismember
sigismember-sigaddset s n m v hn hm =
    let added =
      has_signal-add_signal s n m v (ground arith) (ground arith) (ground arith) (ground arith) in
    let deleted =
      has_signal-del_signal s n m v (ground arith) (ground arith) (ground arith) (ground arith) in
    (rw hn, rw hn, rw (hn, hm) (rw added (ground arith)), rw (hn, hm) (rw deleted (ground arith)))
