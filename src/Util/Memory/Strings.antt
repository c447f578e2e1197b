-- ===== src/Util/Memory/Strings.antt =====
-- Comparisons and bounded copies.
use oscomp.Common.{
  ℕ, zero, suc, ◌+◌, ◌-◌, ◌≤◌, ◌<◌, ◌==◌, ltb, leb, true, false, ◌&&◌, ◌⊎◌, inl, inr, if◌then◌else◌,
  ◌≡◌, ◌≢◌, refl, ◌∙◌, sym, arith, Bool-cases,
}
use oscomp.Util.Memory.{Memory, write, fill_zeros, strncpy}

fill_zeros_lem :
    (m : Memory) (d n b : ℕ) → fill_zeros m d n b ≡ (if leb d b && ltb b (d + n) then 0 else m b)
unfolding fill_zeros
fill_zeros_lem m d zero b = ground arith
fill_zeros_lem m d (suc n) b = fill_zeros_lem (write m d 0) (d + 1) n b ∙ ground arith

-- The memory after the first `k` bytes went from `s` to `d`, and `n - k` zeros behind them.
abbrev pub padded : Memory → ℕ → ℕ → ℕ → ℕ → Memory
padded m d s n k b =
    if leb d b && ltb b (d + n) then (if ltb (b - d) k then m (s + (b - d)) else 0) else m b

step_padded :
    (m : Memory) (d s n k b : ℕ)
    → (d + suc n ≤ s) ⊎ (s + suc n ≤ d)
    → k ≤ n
    → padded (write m d (m s)) (d + 1) (s + 1) n k b ≡ padded m d s (suc n) (suc k) b
step_padded m d s n k b h g = elim (Bool-cases (ltb d b && ltb b (d + suc n))) [
  | inl t ↦
      let from : s + 1 + (b - (d + 1)) ≡ s + (b - d) = ground arith in
      let apart : (d == s + (b - d)) ≡ false = ground arith in rw (from, apart) (ground arith)
  | inr t ↦ elim (Bool-cases (d == b)) [
    | inl e ↦
        let same : d ≡ b = ground arith in
        let from : s + (b - d) ≡ s = omega arith in rw from (ground arith)
    | inr e ↦ ground arith
  ]
]

-- `strncpy` copies the bytes in front of the first zero byte of the source, at most `n`, fills the rest
-- of the `n` bytes with zeros, and changes no other byte, if the regions are apart. Here `k` is the
-- number of bytes in front of the zero, or `n` if there is none among the first `n`.
pub strncpy-padded :
    (m : Memory) (d s n k b : ℕ)
    → (d + n ≤ s) ⊎ (s + n ≤ d)
    → k ≤ n
    → ((j : ℕ) → j < k → m (s + j) ≢ 0)
    → (k ≡ n) ⊎ (m (s + k) ≡ 0)
    → strncpy m d s n b ≡ padded m d s n k b
unfolding strncpy
strncpy-padded m d s zero k b h g nonzero end = ground arith
strncpy-padded m d s (suc n) zero b h g nonzero (inl e) = absurd (omega arith)
strncpy-padded m d s (suc n) zero b h g nonzero (inr e) =
    let first : s + 0 ≡ s = omega arith in
    let here : m s ≡ 0 = rw first at e in rw here (fill_zeros_lem m d (suc n) b ∙ ground arith)
strncpy-padded m d s (suc n) (suc k) b h g nonzero end =
    let first : s + 0 ≡ s = omega arith in
    let first_nonzero : m s ≢ 0 = λ e. nonzero 0 (omega arith) (rw first e) in
    let here : (m s == 0) ≡ false = ground (arith, first_nonzero) in
    rw here (
      strncpy-padded (write m d (m s)) (d + 1) (s + 1) n k b (later h) (omega arith)
        (λ j l e. nonzero (suc j) (omega arith) (sym (read h j (omega arith)) ∙ e))
        (ends (Bool-cases (k == n)) end)
      ∙ step_padded m d s n k b h (omega arith))
  where
    later : (d + suc n ≤ s) ⊎ (s + suc n ≤ d) → (d + 1 + n ≤ s + 1) ⊎ (s + 1 + n ≤ d + 1)
    later (inl h) = inl (omega arith)
    later (inr h) = inr (omega arith)

    read :
        (d + suc n ≤ s) ⊎ (s + suc n ≤ d)
        → (j : ℕ) → j < n
        → write m d (m s) (s + 1 + j) ≡ m (s + suc j)
    read h j l =
        let next : s + 1 + j ≡ s + suc j = omega arith in
        let other : (d == s + suc j) ≡ false = ground arith in rw (next, other) refl

    ends :
        ((k == n) ≡ true) ⊎ ((k == n) ≡ false)
        → (suc k ≡ suc n) ⊎ (m (s + suc k) ≡ 0)
        → (k ≡ n) ⊎ (write m d (m s) (s + 1 + k) ≡ 0)
    ends (inl e) end = inl (ground arith)
    ends (inr e) (inl f) = inl (omega arith)
    ends (inr e) (inr f) = inr (read h k (ground arith) ∙ f)
