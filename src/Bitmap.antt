-- ===== src/Bitmap.antt =====
-- The bitmap helpers of kernel/mm/slab.c, over an array of bytes. kernel/sched/pid.c writes the same
-- expressions out.
pub mod Laws
mod Tests
use oscomp.Common.{
  ℕ, zero, suc, ◌+◌, ◌*◌, ◌/◌, ◌%◌, ◌^◌, ◌==◌, ltb, bit_and, Bool, not, ◌&&◌, Option, none, some,
  List, get_or, set, if◌then◌else◌,
}
use oscomp.Common.Bits.{test_bit, set_bit, clear_bit}

pub setbit : List ℕ → ℕ → List ℕ
setbit m idx = set m (idx / 8) (set_bit (get_or m (idx / 8) 0) (idx % 8))

pub clearbit : List ℕ → ℕ → List ℕ
clearbit m idx = set m (idx / 8) (clear_bit 8 (get_or m (idx / 8) 0) (idx % 8))

pub testbit : List ℕ → ℕ → ℕ
testbit m idx = bit_and (get_or m (idx / 8) 0 / 2 ^ (idx % 8)) 1

-- The condition `bitmap[idx / 8] & (1 << (idx % 8))`.
unfoldable pub is_set : List ℕ → ℕ → Bool
is_set m idx = test_bit (get_or m (idx / 8) 0) (idx % 8)

-- The loop over `j`, with `n` rounds left; `none` where it ends without a return.
pub firstzero_in : List ℕ → ℕ → ℕ → ℕ → ℕ → Option ℕ
firstzero_in m size i zero j = none
firstzero_in m size i (suc n) j =
    let rest = firstzero_in m size i n (j + 1) in
    if not (test_bit (get_or m i 0) j) && ltb (i * 8 + j) size then some (i * 8 + j) else rest

-- The loop over `i`.
pub firstzero_from : List ℕ → ℕ → ℕ → ℕ → Option ℕ
firstzero_from m size zero i = none
firstzero_from m size (suc n) i =
    let rest = firstzero_from m size n (i + 1) in
    elim (firstzero_in m size i 8 0) [ some k ↦ some k | none ↦ rest ]

-- `none` is the result -1. `size + 7` is a uint32; a result of 2 ^ 31 or more is negative as int32.
pub firstzero : List ℕ → ℕ → Option ℕ
unfolding firstzero_from firstzero_in
firstzero m size = firstzero_from m size ((size + 7) % 2 ^ 32 / 8) 0
