-- ===== src/Common/Search.antt =====
-- The loop `for (i = a; i < b; i++) if (p(i)) return i;` and what it finds.
use Prim.Native.Nat.{ℕ, zero, suc, ◌+◌, ◌≤◌, ◌<◌}
use mathlib.Core.Path.{◌≡◌, refl}
use mathlib.Core.Logic.{inl, inr}
use mathlib.Core.Bool.{Bool, true, false}
use mathlib.Core.Option.{Option, none, some}
use native.Mathlib.Decide.{dec_lt}
use native.Mathlib.Omega.{arith}
use oscomp.Common.Tests.{if◌then◌else◌, Bool-cases}

-- `scan p n i` runs the loop for `n` rounds, from `i` on.
unfoldable pub scan : (ℕ → Bool) → ℕ → ℕ → Option ℕ
scan p zero i = none
scan p (suc n) i = let rest = scan p n (i + 1) in if p i then some i else rest

-- `r` is the first number of `[lo, hi)` at which `p` holds, or `none` where there is none.
abbrev pub First : (ℕ → Bool) → ℕ → ℕ → Option ℕ → Type 0
First p lo hi none = (i : ℕ) → lo ≤ i → i < hi → p i ≡ false
First p lo hi (some k) =
    (lo ≤ k) × (k < hi) × (p k ≡ true) × ((i : ℕ) → lo ≤ i → i < k → p i ≡ false)

-- What holds from `mid` on holds from `lo` on, if it holds between.
pub First-append :
    (p : ℕ → Bool) (lo mid hi : ℕ) (r : Option ℕ)
    → First p lo mid none
    → lo ≤ mid
    → First p mid hi r
    → First p lo hi r
First-append p lo mid hi none e h f =
    λ i le lt. elim (dec_lt i mid) [ yes s ↦ e i le s | no s ↦ f i (omega arith) lt ]
First-append p lo mid hi (some k) e h (a, b, c, d) = (
  omega arith,
  b,
  c,
  λ i le lt. elim (dec_lt i mid) [ yes s ↦ e i le s | no s ↦ d i (omega arith) lt ],
)

pub First-none_one : (p : ℕ → Bool) (lo mid : ℕ) → mid ≡ lo + 1 → p lo ≡ false → First p lo mid none
First-none_one p lo mid h e i le lt = let same : i ≡ lo = omega arith in rw same e

-- The loop finds the first.
pub scan-First : (p : ℕ → Bool) (n i j : ℕ) → i + n ≡ j → First p i j (scan p n i)
unfolding scan
scan-First p zero i j h = λ k le lt. absurd (omega arith)
scan-First p (suc n) i j h = elim (Bool-cases (p i)) [
  | inl t ↦ rw t (omega arith, omega arith, t, λ k le lt. absurd (omega arith))
  | inr t ↦ rw t (
      First-append p i (i + 1) j (scan p n (i + 1)) (First-none_one p i (i + 1) refl t)
        (omega arith) (scan-First p n (i + 1) j (omega arith)))
]

-- Tests that agree on the range find the same.
pub First-cong :
    (p q : ℕ → Bool) (lo hi : ℕ) (r : Option ℕ)
    → ((i : ℕ) → lo ≤ i → i < hi → p i ≡ q i)
    → First p lo hi r
    → First q lo hi r
First-cong p q lo hi none same f = λ i le lt. rw (← same i le lt) (f i le lt)
First-cong p q lo hi (some k) same (a, b, c, d) =
    (a, b, rw (← same k a b) c, λ i le lt. rw (← same i le (omega arith)) (d i le lt))
