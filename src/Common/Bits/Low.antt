-- ===== src/Common/Bits/Low.antt =====
-- The low bits of a word: `x & (2^k - 1)`, and the bit above them.
use Prim.Native.Nat.{ℕ, zero, suc, ◌+◌, ◌-◌, ◌*◌, ◌/◌, ◌%◌, ◌^◌, ◌<◌, bit_and}
use mathlib.Core.Path.{◌≡◌, sym, ◌∙◌, ap}
use native.Mathlib.Nat.{pow-suc, mod-add-div, mod-eq_of_lt, mul-add-mod_self_left, mod-lt, mod-one}
use native.Mathlib.Omega.{arith}
use oscomp.Common.Tests.{if◌then◌else◌}
use oscomp.Common.Bits.{pow-pos, test_bit, test_bit-bit_at, bit_at-div}
use oscomp.Common.Bits.Digits.{bit_and_digit, bit_and-le}

regroup : (p n a b r : ℕ) → r + p * (b + n * a) ≡ p * n * a + (p * b + r)
regroup p n a b r = grind arith

-- The upper digit and the rest.
pub mod_split : (p n i : ℕ) → 0 < p → 0 < n → i % (p * n) ≡ p * (i / p % n) + i % p
mod_split p n i h g =
    let q = i / p in
    let top : q % n < n = mod-lt q g in
    let low : i % p < p = mod-lt i h in
    let lt : p * (q % n) + i % p < p * n = grind arith in
    let parts : i ≡ p * n * (q / n) + (p * (q % n) + i % p) =
      sym (mod-add-div i p)
      ∙ ap (λ t. i % p + p * t) (sym (mod-add-div q n))
      ∙ regroup p n (q / n) (q % n) (i % p) in
    ap (λ t. t % (p * n)) parts
    ∙ mul-add-mod_self_left (p * n) (q / n) (p * (q % n) + i % p)
    ∙ mod-eq_of_lt lt

pub bit_and-low : (k x : ℕ) → bit_and x (2 ^ k - 1) ≡ x % 2 ^ k
bit_and-low zero x = omega (arith, (bit_and-le x 0).1, mod-one x)
bit_and-low (suc k) x =
    let p = 2 ^ k in
    let half : (2 ^ suc k - 1) / 2 ≡ p - 1 = omega (arith, pow-suc 2 k, pow-pos k) in
    let odd : (2 ^ suc k - 1) % 2 ≡ 1 = omega (arith, pow-suc 2 k, pow-pos k) in
    let size : 2 ^ suc k ≡ 2 * p = omega (arith, pow-suc 2 k) in
    bit_and_digit x (2 ^ suc k - 1)
    ∙ rw (half, odd, bit_and-low k (x / 2), size, mod_split 2 p x (omega arith) (pow-pos k))
        (omega arith)

-- One bit more.
pub low-suc : (k x : ℕ) → x % 2 ^ suc k ≡ x % 2 ^ k + (if test_bit x k then 2 ^ k else 0)
low-suc k x =
    let p = 2 ^ k in
    let size : 2 ^ suc k ≡ p * 2 = omega (arith, pow-suc 2 k) in
    rw (size, mod_split p 2 x (pow-pos k) (omega arith), test_bit-bit_at x k, bit_at-div x k)
      (ground arith)
