-- ===== src/Mm/PageTable/Laws/Words.antt =====
-- The words of the entries, and the digits of addresses.
use oscomp.Common.{
  ℕ, zero, suc, ◌*◌, ◌/◌, ◌%◌, ◌^◌, ◌≤◌, ◌<◌, ◌==◌, ◌&&◌, ◌||◌, Bool, true, false, bit_or, ◌≡◌,
  refl, ap, ◌∙◌, arith,
}
use native.Mathlib.Nat.{pow-suc, div-div-eq-div-mul, div-one}
use oscomp.Common.Bits.{test_bit, test_bit-bit_or}
use oscomp.Common.Bits.Digits.{bit_or-half, bit_or_digit, zero-bit_or}
use oscomp.Mm.PageTable.{new_pte, pte_valid, pte_to_pa, pa_to_ppn, page_down, px}

bit_or-div : (k a b : ℕ) → bit_or a b / 2 ^ k ≡ bit_or (a / 2 ^ k) (b / 2 ^ k)
bit_or-div zero a b = rw (div-one (bit_or a b), div-one a, div-one b) refl
bit_or-div (suc k) a b =
    let size : 2 ^ suc k ≡ 2 * 2 ^ k = omega (arith, pow-suc 2 k) in
    rw
      (
        size,
        ← div-div-eq-div-mul (bit_or a b) 2 (2 ^ k),
        ← div-div-eq-div-mul a 2 (2 ^ k),
        ← div-div-eq-div-mul b 2 (2 ^ k),
        bit_or-half a b,
      )
      (bit_or-div k (a / 2) (b / 2))

pub new_pte-valid : (pa perm : ℕ) → pte_valid (new_pte pa perm) ≡ true
unfolding test_bit
new_pte-valid pa perm =
    test_bit-bit_or (bit_or (pa_to_ppn pa) perm) 1 0
    ∙ or_true (test_bit (bit_or (pa_to_ppn pa) perm) 0)
  where
    or_true : (b : Bool) → (b || true) ≡ true
    or_true true = refl
    or_true false = refl

bit_or-zero_rounds : (n a : ℕ) → a ≤ n → bit_or a 0 ≡ a
bit_or-zero_rounds n zero le = zero-bit_or 0
bit_or-zero_rounds zero (suc a) le = absurd (omega arith)
bit_or-zero_rounds (suc n) (suc a) le =
    omega (arith, bit_or_digit (suc a) 0, bit_or-zero_rounds n (suc a / 2) (omega arith))

pub bit_or-zero : (a : ℕ) → bit_or a 0 ≡ a
bit_or-zero a = bit_or-zero_rounds a a (omega arith)

pub pte_to_pa-new_pte :
    (pa perm : ℕ) → pa < 2 ^ 56 → perm < 2 ^ 10 → pte_to_pa (new_pte pa perm) ≡ page_down pa
unfolding pte_to_pa pa_to_ppn
pte_to_pa-new_pte pa perm fits small =
    let ppn = pa / 2 ^ 12 * 2 ^ 10 % 2 ^ 64 in
    let low : perm / 2 ^ 10 ≡ 0 = omega arith in
    let one : 1 / 2 ^ 10 ≡ 0 = omega arith in
    let inner : bit_or ppn perm / 2 ^ 10 ≡ ppn / 2 ^ 10 =
      bit_or-div 10 ppn perm ∙ ap (bit_or (ppn / 2 ^ 10)) low ∙ bit_or-zero (ppn / 2 ^ 10) in
    let upper : bit_or (bit_or ppn perm) 1 / 2 ^ 10 ≡ bit_or ppn perm / 2 ^ 10 =
      bit_or-div 10 (bit_or ppn perm) 1
      ∙ ap (bit_or (bit_or ppn perm / 2 ^ 10)) one
      ∙ bit_or-zero (bit_or ppn perm / 2 ^ 10) in
    omega (arith, upper, inner)

pub same_walk-page :
    (a b : ℕ)
    → a < 2 ^ 39
    → b < 2 ^ 39
    → ((px 2 a == px 2 b) && ((px 1 a == px 1 b) && (px 0 a == px 0 b))) ≡ (a / 4096 == b / 4096)
unfolding px
same_walk-page a b lt lt' = ground arith
