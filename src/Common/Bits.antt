-- ===== src/Common/Bits.antt =====
-- Bits of a machine word, for every width: `x & (1 << k)`, `x |= 1 << k` and `x &= ~(1 << k)`.
pub mod Digits
pub mod Low
pub mod Shift
use Prim.Native.Nat.{
  ℕ, zero, suc, ◌+◌, ◌-◌, ◌*◌, ◌/◌, ◌%◌, ◌^◌, ◌≤◌, ◌<◌, min, max, bit_and, bit_or,
}
use mathlib.Core.Path.{◌≡◌, refl, ◌∙◌, ap}
use mathlib.Core.Bool.{Bool, true, false, not, ◌&&◌, ◌||◌}
use native.Mathlib.Nat.{pow-suc, div-one, div-div-eq-div-mul}
use native.Mathlib.Omega.{arith}
use oscomp.Common.Tests.{◌==◌, if◌then◌else◌}
use Digits.{bit_and-half, bit_and-mod_two, bit_or-half, bit_or-mod_two, bit_and-le, bit_or-lt-pow}

-- Digit `i` of `x`, 0 or 1.
pub bit_at : ℕ → ℕ → ℕ
bit_at x zero = x % 2
bit_at x (suc i) = bit_at (x / 2) i

pub bit_at-lt : (x i : ℕ) → bit_at x i < 2
unfolding bit_at
bit_at-lt x zero = omega arith
bit_at-lt x (suc i) = bit_at-lt (x / 2) i

bit_at-bit_and : (a b i : ℕ) → bit_at (bit_and a b) i ≡ min (bit_at a i) (bit_at b i)
unfolding bit_at
bit_at-bit_and a b zero = bit_and-mod_two a b
bit_at-bit_and a b (suc i) = rw (bit_and-half a b) (bit_at-bit_and (a / 2) (b / 2) i)

bit_at-bit_or : (a b i : ℕ) → bit_at (bit_or a b) i ≡ max (bit_at a i) (bit_at b i)
unfolding bit_at
bit_at-bit_or a b zero = bit_or-mod_two a b
bit_at-bit_or a b (suc i) = rw (bit_or-half a b) (bit_at-bit_or (a / 2) (b / 2) i)

half-pow : (k : ℕ) → 2 ^ suc k / 2 ≡ 2 ^ k
half-pow k = omega (arith, pow-suc 2 k)

zero-bit_at : (i : ℕ) → bit_at 0 i ≡ 0
unfolding bit_at
zero-bit_at zero = refl
zero-bit_at (suc i) = zero-bit_at i

bit_at-pow : (k i : ℕ) → bit_at (2 ^ k) i ≡ (if k == i then 1 else 0)
unfolding bit_at
bit_at-pow zero zero = refl
bit_at-pow zero (suc i) = ground (arith, zero-bit_at i)
bit_at-pow (suc k) zero = ground (arith, pow-suc 2 k)
bit_at-pow (suc k) (suc i) = rw (half-pow k) (ground (arith, bit_at-pow k i))

-- `~y` in a word of `w` bits.
abbrev pub complement : ℕ → ℕ → ℕ
complement w y = 2 ^ w - 1 - y

half-complement : (w y : ℕ) → y < 2 ^ suc w → complement (suc w) y / 2 ≡ complement w (y / 2)
half-complement w y h = omega (arith, pow-suc 2 w)

bit_at-complement : (w y i : ℕ) → y < 2 ^ w → i < w → bit_at (complement w y) i ≡ 1 - bit_at y i
unfolding bit_at
bit_at-complement zero y i h g = absurd (omega arith)
bit_at-complement (suc w) y zero h g = omega (arith, pow-suc 2 w)
bit_at-complement (suc w) y (suc i) h g =
    rw (half-complement w y h)
      (bit_at-complement w (y / 2) i (omega (arith, pow-suc 2 w)) (omega arith))

bit_and-pow : (x k : ℕ) → bit_and x (2 ^ k) ≡ bit_at x k * 2 ^ k
unfolding bit_at
bit_and-pow x zero = omega (arith, bit_and-half x 1, bit_and-mod_two x 1, (bit_and-le (x / 2) 0).1)
bit_and-pow x (suc k) =
    let ih = bit_and-pow (x / 2) k in
    let half = bit_and-half x (2 ^ suc k) ∙ ap (bit_and (x / 2)) (half-pow k) in
    grind (arith, bit_and-mod_two x (2 ^ suc k), pow-suc 2 k)

-- `x & (1 << k)`, as a condition.
unfoldable pub test_bit : ℕ → ℕ → Bool
test_bit x k = not (bit_and x (2 ^ k) == 0)

-- `x | (1 << k)`
unfoldable pub set_bit : ℕ → ℕ → ℕ
set_bit x k = bit_or x (2 ^ k)

-- `x & ~(1 << k)`, in a word of `w` bits.
unfoldable pub clear_bit : ℕ → ℕ → ℕ → ℕ
clear_bit w x k = bit_and x (complement w (2 ^ k))

pub pow-pos : (k : ℕ) → 0 < 2 ^ k
pow-pos zero = omega arith
pow-pos (suc k) = omega (arith, pow-pos k, pow-suc 2 k)

pub pow-lt-pow : (w k : ℕ) → k < w → 2 ^ k < 2 ^ w
pow-lt-pow zero k h = absurd (omega arith)
pow-lt-pow (suc w) zero h = omega (arith, pow-suc 2 w, pow-pos w)
pow-lt-pow (suc w) (suc k) h = omega (arith, pow-suc 2 w, pow-suc 2 k, pow-lt-pow w k (omega arith))

-- The condition reads the digit.
pub test_bit-bit_at : (x k : ℕ) → test_bit x k ≡ (bit_at x k == 1)
unfolding test_bit
test_bit-bit_at x k = grind (arith, bit_and-pow x k, bit_at-lt x k, pow-pos k)

-- Setting bit `k` sets it and no other.
pub test_bit-set_bit :
    (x k i : ℕ) → test_bit (set_bit x k) i ≡ (if k == i then true else test_bit x i)
unfolding set_bit
test_bit-set_bit x k i =
    rw (test_bit-bit_at (bit_or x (2 ^ k)) i, test_bit-bit_at x i)
      (ground (arith, bit_at-bit_or x (2 ^ k) i, bit_at-pow k i, bit_at-lt x i))

-- Clearing bit `k` clears it and no other.
pub test_bit-clear_bit :
    (w x k i : ℕ)
    → k < w
    → i < w
    → test_bit (clear_bit w x k) i ≡ (if k == i then false else test_bit x i)
unfolding clear_bit
test_bit-clear_bit w x k i h g =
    rw (test_bit-bit_at (bit_and x (complement w (2 ^ k))) i, test_bit-bit_at x i)
      (ground (
        arith,
        bit_at-bit_and x (complement w (2 ^ k)) i,
        bit_at-complement w (2 ^ k) i (pow-lt-pow w k h) g,
        bit_at-pow k i,
        bit_at-lt x i,
      ))

-- Neither operation leaves the word.
pub set_bit-lt : (w x k : ℕ) → x < 2 ^ w → k < w → set_bit x k < 2 ^ w
unfolding set_bit
set_bit-lt w x k h g = bit_or-lt-pow w x (2 ^ k) h (pow-lt-pow w k g)

pub clear_bit-le : (w x k : ℕ) → clear_bit w x k ≤ x
unfolding clear_bit
clear_bit-le w x k = (bit_and-le x (complement w (2 ^ k))).0

pub test_bit-zero : (i : ℕ) → test_bit 0 i ≡ false
test_bit-zero i = rw (test_bit-bit_at 0 i, zero-bit_at i)

pub bit_at-div : (x k : ℕ) → bit_at x k ≡ x / 2 ^ k % 2
unfolding bit_at
bit_at-div x zero = omega (arith, div-one x)
bit_at-div x (suc k) =
    let ih = bit_at-div (x / 2) k in
    ih
    ∙ ap (λ t. t % 2)
        (div-div-eq-div-mul x 2 (2 ^ k) ∙ ap (λ t. x / t) (omega (arith, pow-suc 2 k)))

-- `(x >> k) & 1` is that condition, as a number.
pub shifted_bit : (x k : ℕ) → bit_and (x / 2 ^ k) 1 ≡ (if test_bit x k then 1 else 0)
shifted_bit x k =
    let y = x / 2 ^ k in
    ground (
      arith,
      bit_and-half y 1,
      bit_and-mod_two y 1,
      (bit_and-le (y / 2) 0).1,
      bit_at-div x k,
      test_bit-bit_at x k,
    )

-- `a | b` and `a & ~b`, bit by bit.
pub test_bit-bit_or : (a b i : ℕ) → test_bit (bit_or a b) i ≡ (test_bit a i || test_bit b i)
test_bit-bit_or a b i =
    rw (test_bit-bit_at (bit_or a b) i, test_bit-bit_at a i, test_bit-bit_at b i)
      (ground (arith, bit_at-bit_or a b i, bit_at-lt a i, bit_at-lt b i))

pub test_bit-bit_and-not :
    (w a b i : ℕ)
    → b < 2 ^ w
    → i < w
    → test_bit (bit_and a (complement w b)) i ≡ (test_bit a i && not (test_bit b i))
test_bit-bit_and-not w a b i h g =
    rw (test_bit-bit_at (bit_and a (complement w b)) i, test_bit-bit_at a i, test_bit-bit_at b i)
      (ground (
        arith,
        bit_at-bit_and a (complement w b) i,
        bit_at-complement w b i h g,
        bit_at-lt a i,
        bit_at-lt b i,
      ))

pub bit_or_fits : (w a b : ℕ) → a < 2 ^ w → b < 2 ^ w → bit_or a b < 2 ^ w
bit_or_fits w a b h g = bit_or-lt-pow w a b h g

pub bit_and-le_left : (a b : ℕ) → bit_and a b ≤ a
bit_and-le_left a b = (bit_and-le a b).0
