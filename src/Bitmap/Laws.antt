-- ===== src/Bitmap/Laws.antt =====
-- What the bitmap helpers do to each bit, and which bit `firstzero` finds.
use oscomp.Common.{
  ℕ, zero, suc, ◌+◌, ◌*◌, ◌/◌, ◌%◌, ◌^◌, ◌≤◌, ◌<◌, ◌==◌, ltb, Bool, true, false, not, ◌&&◌, Option,
  none, some, List, length, get_or, if◌then◌else◌, ◌≡◌, refl, ◌∙◌, inl, inr, arith, get_or-set,
  length-set, replicate, get_or-replicate, First, First-append, First-none_one, Bool-cases,
}
use oscomp.Common.Bits.{
  shifted_bit, test_bit-zero, test_bit, set_bit, clear_bit, test_bit-set_bit, test_bit-clear_bit,
}
use oscomp.Bitmap.{setbit, clearbit, testbit, is_set, firstzero_in, firstzero_from, firstzero}

pub length-setbit : (m : List ℕ) (k : ℕ) → length (setbit m k) ≡ length m
unfolding setbit
length-setbit m k = length-set m (k / 8) (set_bit (get_or m (k / 8) 0) (k % 8))

pub length-clearbit : (m : List ℕ) (k : ℕ) → length (clearbit m k) ≡ length m
unfolding clearbit
length-clearbit m k = length-set m (k / 8) (clear_bit 8 (get_or m (k / 8) 0) (k % 8))

-- Setting bit `k` of a bitmap sets that bit and leaves every other.
pub is_set-setbit :
    (m : List ℕ) (k i : ℕ)
    → k < length m * 8
    → is_set (setbit m k) i ≡ (if k == i then true else is_set m i)
unfolding setbit is_set
is_set-setbit m k i h =
    let b = get_or m (k / 8) 0 in
    ground (
      arith,
      get_or-set m (k / 8) (i / 8) (set_bit b (k % 8)) 0 (omega arith),
      test_bit-set_bit b (k % 8) (i % 8),
    )

-- Clearing bit `k` of a bitmap clears that bit and leaves every other.
pub is_set-clearbit :
    (m : List ℕ) (k i : ℕ)
    → k < length m * 8
    → is_set (clearbit m k) i ≡ (if k == i then false else is_set m i)
unfolding clearbit is_set
is_set-clearbit m k i h =
    let b = get_or m (k / 8) 0 in
    ground (
      arith,
      get_or-set m (k / 8) (i / 8) (clear_bit 8 b (k % 8)) 0 (omega arith),
      test_bit-clear_bit 8 b (k % 8) (i % 8) (omega arith) (omega arith),
    )

-- The condition under which `firstzero` returns `k`.
abbrev pub is_free : List ℕ → ℕ → ℕ → Bool
is_free m size k = not (is_set m k) && ltb k size

is_set_in : (m : List ℕ) (i j : ℕ) → j < 8 → is_set m (i * 8 + j) ≡ test_bit (get_or m i 0) j
unfolding is_set
is_set_in m i j h =
    let q : (i * 8 + j) / 8 ≡ i = omega arith in
    let r : (i * 8 + j) % 8 ≡ j = omega arith in rw (q, r)

firstzero_in-First :
    (m : List ℕ) (size i n j : ℕ)
    → j + n ≡ 8
    → First (is_free m size) (i * 8 + j) (i * 8 + 8) (firstzero_in m size i n j)
unfolding firstzero_in
firstzero_in-First m size i zero j h = λ k le lt. absurd (omega arith)
firstzero_in-First m size i (suc n) j h =
    let here : is_free m size (i * 8 + j)
        ≡ (not (test_bit (get_or m i 0) j) && ltb (i * 8 + j) size) =
      rw (is_set_in m i j (omega arith)) in
    let rest = firstzero_in-First m size i n (j + 1) (omega arith) in
    elim (Bool-cases (not (test_bit (get_or m i 0) j) && ltb (i * 8 + j) size)) [
      | inl t ↦ rw t (omega arith, omega arith, here ∙ t, λ k le lt. absurd (omega arith))
      | inr t ↦ rw t (
          First-append (is_free m size) (i * 8 + j) (i * 8 + (j + 1)) (i * 8 + 8)
            (firstzero_in m size i n (j + 1))
            (First-none_one (is_free m size) _ _ (omega arith) (here ∙ t)) (omega arith) rest)
    ]

-- A find before `mid` is a find before `hi`.
First-widen :
    (p : ℕ → Bool) (lo mid hi k : ℕ) → mid ≤ hi → First p lo mid (some k) → First p lo hi (some k)
First-widen p lo mid hi k h (a, b, c, d) = (a, omega arith, c, d)

byte_then :
    (p : ℕ → Bool) (lo mid hi : ℕ) (r rest : Option ℕ)
    → lo ≤ mid
    → mid ≤ hi
    → First p lo mid r
    → First p mid hi rest
    → First p lo hi (elim r [ some k ↦ some k | none ↦ rest ])
byte_then p lo mid hi none rest h g e f = First-append p lo mid hi rest e h f
byte_then p lo mid hi (some k) rest h g e f = First-widen p lo mid hi k g e

firstzero_from-First :
    (m : List ℕ) (size n i : ℕ)
    → First (is_free m size) (i * 8) (i * 8 + n * 8) (firstzero_from m size n i)
unfolding firstzero_from
firstzero_from-First m size zero i = λ k le lt. absurd (omega arith)
firstzero_from-First m size (suc n) i =
    let byte = firstzero_in-First m size i 8 0 refl in
    let ih = firstzero_from-First m size n (i + 1) in
    let at : i * 8 + 0 ≡ i * 8 = omega arith in
    let lo : (i + 1) * 8 ≡ i * 8 + 8 = omega arith in
    let hi : i * 8 + 8 + n * 8 ≡ i * 8 + suc n * 8 = omega arith in
    byte_then (is_free m size) (i * 8) (i * 8 + 8) (i * 8 + suc n * 8) (firstzero_in m size i 8 0)
      (firstzero_from m size n (i + 1)) (omega arith) (omega arith) (rw at at byte)
      (rw (lo, hi) at ih)

-- `r` is the lowest clear bit below `size`; `none` says that all of them are set.
abbrev pub LowestClear : List ℕ → ℕ → Option ℕ → Type 0
LowestClear m size none = (i : ℕ) → i < size → is_set m i ≡ true
LowestClear m size (some k) =
    (k < size) × (is_set m k ≡ false) × ((i : ℕ) → i < k → is_set m i ≡ true)

lowest_of_First :
    (m : List ℕ) (size hi : ℕ) (r : Option ℕ)
    → size ≤ hi
    → First (is_free m size) 0 hi r
    → LowestClear m size r
lowest_of_First m size hi none h f = λ i lt. ground (arith, f i (omega arith) (omega arith))
lowest_of_First m size hi (some k) h (a, b, c, d) =
    (ground arith, ground arith, λ i lt. ground (arith, d i (omega arith) lt))

-- For a size below 2 ^ 31, `firstzero` returns the lowest clear bit below `size`, and -1 only if all of
-- those are set.
pub firstzero-LowestClear :
    (m : List ℕ) (size : ℕ) → size < 2 ^ 31 → LowestClear m size (firstzero m size)
unfolding firstzero
firstzero-LowestClear m size fits =
    let bytes = (size + 7) % 2 ^ 32 / 8 in
    lowest_of_First m size (0 * 8 + bytes * 8) (firstzero_from m size bytes 0) (omega arith)
      (firstzero_from-First m size bytes 0)

-- `bitmap_testbit` returns 1 for a bit that is set and 0 for one that is not.
pub testbit-is_set : (m : List ℕ) (k : ℕ) → testbit m k ≡ (if is_set m k then 1 else 0)
unfolding testbit is_set
testbit-is_set m k = shifted_bit (get_or m (k / 8) 0) (k % 8)

-- A fresh bitmap has no bit set.
pub is_set-replicate : (n k : ℕ) → is_set (replicate n 0) k ≡ false
unfolding is_set
is_set-replicate n k = rw (get_or-replicate {A = ℕ} n (k / 8) 0) (test_bit-zero (k % 8))
