-- ===== src/Mm/Slab/Caches/Laws.antt =====
-- What slab_free does to what slab_alloc gave.
use oscomp.Common.{
  ℕ, zero, suc, ◌+◌, ◌-◌, ◌*◌, ◌/◌, ◌%◌, ◌≤◌, ◌<◌, ◌==◌, ltb, false, Option, none, some, List, [],
  ◌∷◌, length, get_or, get_or-set_self, get_or-set_ne, ◌≡◌, refl, sym, ◌∙◌, ap, arith, ==_iff,
  Bool-cases, inl, inr,
}
use native.Mathlib.Nat.{le-div_iff_mul-le}
use oscomp.Mm.Space.{page_size}
use oscomp.Mm.Space.Areas.{All}
use oscomp.Mm.Slab.{Slab, header_size, slab_sizes, slab_header_init, index_to_obj}
use oscomp.Mm.Slab.Object.{Taken}
use oscomp.Mm.Slab.Sizes.{Smallest, slab_cache_for_size-Smallest}
use oscomp.Mm.Slab.Cache.{Cache, empty_cache, slab_alloc_obj}
use oscomp.Mm.Slab.Cache.Laws.{IsStocked, IsChosen, Returned, slab_alloc_obj-Object}
use oscomp.Mm.Slab.Caches.{
  Allocator, cache_at, with_cache, allocated, alloc_from, slab_alloc, slab_free,
}
use oscomp.Mm.Slab.Caches.Free.{IsPlaced, HasSizes, IsRestored, slab_free-IsRestored}

abbrev pub IsPage : Option ℕ → Type 0
IsPage none = Unit
IsPage (some p) = (p % 4096 ≡ 0) × (0 < p)

-- The caches of 128 bytes and more are stocked, and their slabs are placed.
pub record IsSetUp (s : Allocator) : Type 0 where
  pub sizes : HasSizes s
  pub eight : 8 ≤ length s.slab_caches
  pub stocked : (i : ℕ) → 3 ≤ i → i < 8 → IsStocked (cache_at s i)
  pub placed :
      (i : ℕ)
      → 3 ≤ i
      → i < 8
      → All (λ p. IsPlaced (get_or slab_sizes i 0) p (s.headers p)) (cache_at s i).slabs_partial
        × All (λ p. IsPlaced (get_or slab_sizes i 0) p (s.headers p)) (cache_at s i).slabs_free

-- The classes of 128 bytes and more.
class_bounds :
    (i : ℕ)
    → 3 ≤ i
    → i < 8
    → (get_or slab_sizes i 0 % 8 ≡ 0)
      × (128 ≤ get_or slab_sizes i 0)
      × (get_or slab_sizes i 0 ≤ 2048)
class_bounds zero l h = absurd (omega arith)
class_bounds (suc zero) l h = absurd (omega arith)
class_bounds (suc (suc zero)) l h = absurd (omega arith)
class_bounds (suc (suc (suc zero))) l h = (refl, omega arith, omega arith)
class_bounds (suc (suc (suc (suc zero)))) l h = (refl, omega arith, omega arith)
class_bounds (suc (suc (suc (suc (suc zero))))) l h = (refl, omega arith, omega arith)
class_bounds (suc (suc (suc (suc (suc (suc zero)))))) l h = (refl, omega arith, omega arith)
class_bounds (suc (suc (suc (suc (suc (suc (suc zero))))))) l h = (refl, omega arith, omega arith)
class_bounds (suc (suc (suc (suc (suc (suc (suc (suc i)))))))) l h = absurd (omega arith)

class-low : (i size : ℕ) → 64 < size → Smallest size i → 3 ≤ i
class-low zero size h m = absurd (omega (arith, m.fits))
class-low (suc zero) size h m = absurd (omega (arith, m.fits))
class-low (suc (suc zero)) size h m = absurd (omega (arith, m.fits))
class-low (suc (suc (suc i))) size h m = omega arith

slab_header_init-IsPlaced :
    (size p : ℕ)
    → size % 8 ≡ 0
    → 128 ≤ size
    → p % 4096 ≡ 0
    → 0 < p
    → IsPlaced size p (slab_header_init size)
unfolding slab_header_init
slab_header_init-IsPlaced size p whole low aligned above =
    let o = (size + 7) / 8 * 8 in
    let room = page_size - header_size - (page_size / o + 7) / 8 in
    let fits : room / o * o ≤ room =
      (le-div_iff_mul-le {k = o} {x = room / o} {y = room} (omega arith)).0 (omega arith) in
    record { aligned = aligned; above = above; sized = omega arith; inside = omega (arith, fits) }

chosen-IsPlaced :
    (c : Cache) (size : ℕ) (partial free : List ℕ) (page : Option ℕ) (p : ℕ) (before : Slab)
    → c.obj_size ≡ size
    → size % 8 ≡ 0
    → 128 ≤ size
    → All (λ p. IsPlaced size p (c.slabs p)) partial
    → All (λ p. IsPlaced size p (c.slabs p)) free
    → IsPage page
    → IsChosen c partial free page p before
    → IsPlaced size p before
chosen-IsPlaced c size (q ∷ qs) free page p before e w l (h, hs) gs ok (at, is) = rw (at, is) h
chosen-IsPlaced c size [] (q ∷ qs) page p before e w l hs (g, gs) ok (at, is) = rw (at, is) g
chosen-IsPlaced c size [] [] none p before e w l hs gs ok (at, is) = absurd (cc)
chosen-IsPlaced c size [] [] (some q) p before e w l hs gs (a, b) (at, is) =
    let here : p ≡ q = cc in rw (is, e, here) (slab_header_init-IsPlaced size q w l a b)

-- What a free does to the address that was returned; null is returned only without a page.
abbrev pub Back : Allocator → Option ℕ → ℕ → Allocator → Option ℕ → Type 0
Back s page i s' none = page ≡ none
Back s page i s' (some obj) =
    (p : ℕ) × (before : Slab) × (k : ℕ) × IsChosen (cache_at s i) (cache_at s i).slabs_partial
      (cache_at s i).slabs_free page p before
    × Taken before (s'.headers p) k
    × (obj ≡ index_to_obj p before.obj_size k)
    × IsRestored p before (slab_free s' obj)

with_cache-HasSizes :
    (s : Allocator) (i : ℕ) (c : Cache)
    → HasSizes s
    → i < length s.slab_caches
    → c.obj_size ≡ get_or slab_sizes i 0
    → HasSizes (with_cache s i c)
with_cache-HasSizes s i c sizes l e j small = elim (Bool-cases (i == j)) [
  | inl at ↦
      let same : i ≡ j = (==_iff i j).0 at in
      rw (sym same, get_or-set_self s.slab_caches i c (empty_cache 0) l) e
  | inr off ↦
      rw
        (get_or-set_ne s.slab_caches i j c (empty_cache 0)
          (λ q. absurd (cc (off, (==_iff i j).1 q))))
        (sizes j small)
]

-- An allocation that does not panic, and a free of what it returns.
abbrev pub RoundTrip : Allocator → Option ℕ → ℕ → Option (Allocator × Option ℕ) → Type 0
RoundTrip s page i result =
    (s' : Allocator) × (r : Option ℕ) × (result ≡ some (s', r)) × Back s page i s' r

alloc_from-RoundTrip :
    (s : Allocator) (page : Option ℕ) (i : ℕ)
    → 3 ≤ i
    → i < 8
    → IsSetUp s
    → IsPage page
    → RoundTrip s page i (alloc_from s page (some i))
unfolding alloc_from slab_alloc_obj
alloc_from-RoundTrip s page i low small ok aligned =
    let (whole, least, most) = class_bounds i low small in
    let size = ok.sizes i small in
    let (c', r, e, ret) =
      slab_alloc_obj-Object (cache_at s i) page (ok.stocked i low small) (rw size least)
        (rw size most) in
    (with_cache s i c', r, ap (allocated s i) e, back c' r ret)
  where
    back :
        (c' : Cache) (r : Option ℕ)
        → Returned (cache_at s i) (cache_at s i).slabs_partial (cache_at s i).slabs_free page c' r
        → Back s page i (with_cache s i c') r
    back c' none ret = ret.0
    back c' (some obj) (p, before, chosen, (k, ready, t, at, kept)) =
        let (whole, least, most) = class_bounds i low small in
        let size = ok.sizes i small in
        let placed =
          chosen-IsPlaced (cache_at s i) (get_or slab_sizes i 0) (cache_at s i).slabs_partial
            (cache_at s i).slabs_free page p before size whole least (ok.placed i low small).0
            (ok.placed i low small).1 aligned chosen in
        (
          p,
          before,
          k,
          chosen,
          t,
          at,
          rw at (
              slab_free-IsRestored (with_cache s i c') p k before (get_or slab_sizes i 0) i
                (with_cache-HasSizes s i c' ok.sizes (omega (arith, ok.eight)) (kept ∙ size)) small
                refl (omega (arith, least)) ready.few placed t),
        )

-- A size of 65 to 2048 bytes, caches of 128 bytes and more in which each slab that is not full has a
-- free object and lies on an aligned page, and an aligned page or none: `slab_alloc` does not panic. It
-- returns null only without a page; else the lowest free object of the first partial slab, the first
-- free slab or a fresh one of the smallest cache that fits, which it marks alone and counts; and
-- `slab_free` of the address returns 1 and puts the bits and the count of that slab back.
pub slab_free-slab_alloc :
    (s : Allocator) (size : ℕ) (page : Option ℕ)
    → 64 < size
    → size ≤ 2048
    → IsSetUp s
    → IsPage page
    → (i : ℕ) × Smallest size i × RoundTrip s page i (slab_alloc s size page)
unfolding slab_alloc
slab_free-slab_alloc s size page low high ok aligned =
    let (i, e, m) = slab_cache_for_size-Smallest size high in
    let fits : ltb 2048 size ≡ false = ground arith in
    (i, m, rw (fits, e) (alloc_from-RoundTrip s page i (class-low i size low m) m.cache ok aligned))
