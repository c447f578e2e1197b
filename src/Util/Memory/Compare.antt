-- ===== src/Util/Memory/Compare.antt =====
-- When `memcmp` returns 0.
use oscomp.Common.{
  ℕ, zero, suc, ◌+◌, ◌<◌, ◌==◌, leb, true, ◌||◌, ◌≡◌, ◌↔◌, refl, ap, ◌∙◌, arith, Bool-cases, inl,
  inr,
}
use oscomp.Util.Memory.{Memory, memcmp, compare_bytes, diff, is_zero}

-- `n` bytes at `p` and at `q` agree.
abbrev pub Agree : Memory → ℕ → ℕ → ℕ → Type 0
Agree m p q n = (i : ℕ) → i < n → m (p + i) ≡ m (q + i)

is_zero-diff : (a b : ℕ) → is_zero (diff a b) ≡ (a == b)
is_zero-diff a b = elim (Bool-cases (leb b a)) [
  | inl t ↦ rw t (ground arith)
  | inr t ↦ rw t (ground arith)
]

pub Agree-head : (m : Memory) (p q n : ℕ) → Agree m p q (suc n) → m p ≡ m q
Agree-head m p q n h =
    let first : m p ≡ m (p + 0) = ap m (omega arith) in
    let second : m (q + 0) ≡ m q = ap m (omega arith) in first ∙ h 0 (omega arith) ∙ second

pub Agree-tail : (m : Memory) (p q n : ℕ) → Agree m p q (suc n) → Agree m (p + 1) (q + 1) n
Agree-tail m p q n h = λ i l.
    let first : p + 1 + i ≡ p + suc i = omega arith in
    let second : q + 1 + i ≡ q + suc i = omega arith in rw (first, second) (h (suc i) (omega arith))

agrees : (m : Memory) (p q n : ℕ) → Agree m p q n → is_zero (compare_bytes m p q n) ≡ true
unfolding compare_bytes
agrees m p q zero h = refl
agrees m p q (suc n) h =
    let same : (m p == m q) ≡ true = ground (arith, Agree-head m p q n h) in
    rw same (agrees m (p + 1) (q + 1) n (Agree-tail m p q n h))

compare_bytes-Agree :
    (m : Memory) (p q n : ℕ) → is_zero (compare_bytes m p q n) ≡ true → Agree m p q n
unfolding compare_bytes
compare_bytes-Agree m p q zero e = λ i l. absurd (omega arith)
compare_bytes-Agree m p q (suc n) e = elim (Bool-cases (m p == m q)) [
  | inl t ↦ grown (ground (arith, t)) (compare_bytes-Agree m (p + 1) (q + 1) n (rw t at e))
  | inr t ↦ absurd (ground (arith, is_zero-diff (m p) (m q), rw t at e, t))
]
  where
    grown : m p ≡ m q → Agree m (p + 1) (q + 1) n → Agree m p q (suc n)
    grown e h zero l =
        let first : m (p + 0) ≡ m p = ap m (omega arith) in
        let second : m q ≡ m (q + 0) = ap m (omega arith) in first ∙ e ∙ second
    grown e h (suc i) l =
        let first : m (p + suc i) ≡ m (p + 1 + i) = ap m (omega arith) in
        let second : m (q + 1 + i) ≡ m (q + suc i) = ap m (omega arith) in
        first ∙ h i (omega arith) ∙ second

-- `memcmp` returns 0 exactly if the bytes of the two regions agree.
pub memcmp-Agree : (m : Memory) (p q n : ℕ) → (is_zero (memcmp m p q n) ≡ true) ↔ Agree m p q n
unfolding memcmp
memcmp-Agree m p q n = elim (Bool-cases (p == q || n == 0)) [
  | inl t ↦ rw t (λ e i l. trivial (ground (arith, t, l)) i, λ h. refl)
  | inr t ↦ rw t (compare_bytes-Agree m p q n, agrees m p q n)
]
  where
    trivial : p ≡ q → (i : ℕ) → m (p + i) ≡ m (q + i)
    trivial e i = rw e refl
