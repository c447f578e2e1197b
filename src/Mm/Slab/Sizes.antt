-- ===== src/Mm/Slab/Sizes.antt =====
-- Size classes, and the addresses of objects.
use oscomp.Common.{
  ℕ, suc, ◌+◌, ◌-◌, ◌*◌, ◌/◌, ◌^◌, ◌≤◌, ◌<◌, leb, ltb, Bool, false, Option, none, some, get_or, ◌≡◌,
  refl, arith, First, scan-First, scan,
}
use native.Mathlib.Nat.{le-div_iff_mul-le, div-lt_iff_lt-mul}
use oscomp.Mm.Space.{page_size}
use oscomp.Mm.Slab.{
  slab_sizes, slab_cache_for_size, index_to_obj, obj_index, slab_header_init, header_size,
}

-- The smallest cache whose objects hold the rounded size.
pub record Smallest (size i : ℕ) : Type 0 where
  pub cache : i < 8
  pub fits : (size + 7) / 8 * 8 ≤ get_or slab_sizes i 0
  pub smaller : (j : ℕ) → j < i → get_or slab_sizes j 0 < (size + 7) / 8 * 8

-- A size up to 2048 has a cache, and `slab_cache_for_size` chooses the smallest.
pub slab_cache_for_size-Smallest :
    (size : ℕ) → size ≤ 2048 → (i : ℕ) × (slab_cache_for_size size ≡ some i) × Smallest size i
unfolding slab_cache_for_size
slab_cache_for_size-Smallest size h = found (scan holds 8 0) (scan-First holds 8 0 8 refl)
  where
    holds : ℕ → Bool
    holds i = leb ((size + 7) / 8 * 8) (get_or slab_sizes i 0)

    found : (r : Option ℕ) → First holds 0 8 r → (i : ℕ) × (r ≡ some i) × Smallest size i
    found none f = absurd (ground (arith, f 7 (omega arith) (omega arith)))
    found (some i) (a, b, c, d) = (
      i,
      refl,
      record {
        cache = b;
        fits = ground (arith, c);
        smaller = λ j l. ground (arith, d j (omega arith) l);
      },
    )

quotient : (idx size d : ℕ) → d < size → (idx * size + d) / size ≡ idx
quotient idx size d h =
    let low : idx ≤ (idx * size + d) / size = (le-div_iff_mul-le (omega arith)).1 (omega arith) in
    let high : (idx * size + d) / size < suc idx =
      (div-lt_iff_lt-mul (omega arith)).1 (omega arith) in
    omega arith

-- The index of an address anywhere inside of an object is the object's index.
pub obj_index-index_to_obj :
    (page size idx d : ℕ)
    → d < size
    → idx < 2 ^ 32
    → obj_index page size (index_to_obj page size idx + d) ≡ idx
unfolding obj_index index_to_obj
obj_index-index_to_obj page size idx d h g =
    let behind : ltb (page + header_size + idx * size + d) (page + header_size) ≡ false =
      ground arith in
    let inner : page + header_size + idx * size + d - (page + header_size) ≡ idx * size + d =
      omega arith in
    rw (behind, inner, quotient idx size d h) (omega arith)

-- Every object of a fresh slab lies behind the header and inside of the page.
pub index_to_obj-slab_header_init :
    (page size idx : ℕ)
    → 0 < size
    → size ≤ 2048
    → idx < (slab_header_init size).total_count
    → (page + header_size ≤ index_to_obj page (slab_header_init size).obj_size idx)
      × (index_to_obj page (slab_header_init size).obj_size idx + (slab_header_init size).obj_size
          ≤ page + page_size)
unfolding index_to_obj slab_header_init
index_to_obj-slab_header_init page size idx p h l =
    let o = (size + 7) / 8 * 8 in
    let room = page_size - header_size - (page_size / o + 7) / 8 in
    let whole : suc idx * o ≤ room =
      (le-div_iff_mul-le {k = o} {x = suc idx} {y = room} (omega arith)).0 l in
    (omega arith, omega arith)
