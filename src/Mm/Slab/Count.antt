-- ===== src/Mm/Slab/Count.antt =====
-- The number of clear bits of a bitmap.
use oscomp.Common.{
  ℕ, zero, suc, ◌+◌, ◌≤◌, ◌<◌, ◌==◌, true, false, List, if◌then◌else◌, ◌≡◌, refl, ◌∙◌, arith,
  Bool-cases, inl, inr, replicate,
}
use oscomp.Bitmap.{is_set}
use oscomp.Bitmap.Laws.{is_set-replicate}

-- The number of clear bits below `n`.
abbrev pub clear_count : List ℕ → ℕ → ℕ
clear_count m zero = 0
clear_count m (suc n) = if is_set m n then clear_count m n else clear_count m n + 1

pub clear_count-replicate : (k n : ℕ) → clear_count (replicate k 0) n ≡ n
clear_count-replicate k zero = refl
clear_count-replicate k (suc n) =
    rw (is_set-replicate k n) (omega (arith, clear_count-replicate k n))

pub clear_count_full :
    (m : List ℕ) (n : ℕ) → ((i : ℕ) → i < n → is_set m i ≡ true) → clear_count m n ≡ 0
clear_count_full m zero h = refl
clear_count_full m (suc n) h =
    rw (h n (omega arith)) (clear_count_full m n (λ i l. h i (omega arith)))

pub clear_count_same :
    (m m' : List ℕ) (n : ℕ)
    → ((i : ℕ) → i < n → is_set m' i ≡ is_set m i)
    → clear_count m' n ≡ clear_count m n
clear_count_same m m' zero h = refl
clear_count_same m m' (suc n) h =
    rw (h n (omega arith), clear_count_same m m' n (λ i l. h i (omega arith))) refl

-- One bit more is set.
pub clear_count_set :
    (m m' : List ℕ) (n k : ℕ)
    → k < n
    → is_set m k ≡ false
    → ((i : ℕ) → i < n → is_set m' i ≡ (if k == i then true else is_set m i))
    → clear_count m' n + 1 ≡ clear_count m n
clear_count_set m m' zero k l e h = absurd (omega arith)
clear_count_set m m' (suc n) k l e h = elim (Bool-cases (k == n)) [
  | inl t ↦
      let here : k ≡ n = ground (arith, t) in
      let clear : is_set m n ≡ false = rw (← here) e in
      let rest = clear_count_same m m' n (λ i j. h i (omega arith) ∙ ground (arith, here)) in
      let at = h n (omega arith) in ground (arith, clear, rest, at, t)
  | inr t ↦
      let rest = clear_count_set m m' n k (ground (arith, t)) e (λ i j. h i (omega arith)) in
      let at = h n (omega arith) in ground (arith, rest, at, t)
]

pub clear_count-le : (m : List ℕ) (n : ℕ) → clear_count m n ≤ n
clear_count-le m zero = omega arith
clear_count-le m (suc n) = ground (arith, clear_count-le m n)
