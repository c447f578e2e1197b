-- ===== src/Common/Bits/Shift.antt =====
-- The bits of a number that is shifted to the right.
use Prim.Native.Nat.{ℕ, zero, suc, ◌+◌, ◌*◌, ◌/◌, ◌^◌}
use mathlib.Core.Path.{◌≡◌, sym, ap, ◌∙◌}
use native.Mathlib.Omega.{arith}
use native.Mathlib.Nat.{div-div-eq-div-mul, div-one, pow-suc}
use oscomp.Common.Bits.{bit_at, test_bit, test_bit-bit_at}
use oscomp.Common.Tests.{◌==◌}

bit_at-shift : (k m b : ℕ) → bit_at (m / 2 ^ k) b ≡ bit_at m (b + k)
unfolding bit_at
bit_at-shift zero m b =
    let last : b ≡ b + 0 = omega arith in ap (λ t. bit_at t b) (div-one m) ∙ ap (bit_at m) last
bit_at-shift (suc k) m b =
    let twice : 2 ^ suc k ≡ 2 * 2 ^ k = omega (arith, pow-suc 2 k) in
    let halves : m / 2 ^ suc k ≡ m / 2 / 2 ^ k =
      ap (λ t. m / t) twice ∙ sym (div-div-eq-div-mul m 2 (2 ^ k)) in
    let last : suc (b + k) ≡ b + suc k = omega arith in
    ap (λ t. bit_at t b) halves ∙ bit_at-shift k (m / 2) b ∙ ap (bit_at m) last

pub test_bit-shift : (k m b : ℕ) → test_bit (m / 2 ^ k) b ≡ test_bit m (b + k)
test_bit-shift k m b =
    test_bit-bit_at (m / 2 ^ k) b
    ∙ ap (λ t. t == 1) (bit_at-shift k m b)
    ∙ sym (test_bit-bit_at m (b + k))
