-- ===== src/Mm/Slab/Caches/Tests.antt =====
-- The caches as slab_init leaves them.
use oscomp.Common.{ℕ, zero, suc, ◌≡◌, refl, some, List, [], ◌∷◌, get_or, map, arith}
use oscomp.Mm.Slab.{slab_sizes, slab_header_init}
use oscomp.Mm.Slab.Sizes.{Smallest}
use oscomp.Mm.Slab.Cache.{empty_cache, slab_init}
use oscomp.Mm.Slab.Caches.{Allocator, slab_alloc}
use oscomp.Mm.Slab.Caches.Laws.{IsSetUp, RoundTrip, slab_free-slab_alloc}

abbrev first_caches : Allocator
first_caches = record { slab_caches = slab_init; headers = λ p. slab_header_init 16 }

map-empty_cache :
    (l : List ℕ) (i : ℕ)
    → ((get_or (map empty_cache l) i (empty_cache 0)).slabs_partial ≡ [])
      × ((get_or (map empty_cache l) i (empty_cache 0)).slabs_free ≡ [])
      × ((get_or (map empty_cache l) i (empty_cache 0)).obj_size ≡ get_or l i 0)
unfolding empty_cache
map-empty_cache [] i = (refl, refl, refl)
map-empty_cache (n ∷ l) zero = (refl, refl, refl)
map-empty_cache (n ∷ l) (suc i) = map-empty_cache l i

first_caches-IsSetUp : IsSetUp first_caches
unfolding slab_init
first_caches-IsSetUp = record {
  sizes = λ j l. (map-empty_cache slab_sizes j).2;
  eight = omega arith;
  stocked = λ i l h. let (a, b, c) = map-empty_cache slab_sizes i in rw (a, b) (tt, tt);
  placed = λ i l h. let (a, b, c) = map-empty_cache slab_sizes i in rw (a, b) (tt, tt);
}

slab_free-slab_alloc_example :
    (i : ℕ) × Smallest 100 i
    × RoundTrip first_caches (some 8192) i (slab_alloc first_caches 100 (some 8192))
slab_free-slab_alloc_example =
    slab_free-slab_alloc first_caches 100 (some 8192) (omega arith) (omega arith)
      first_caches-IsSetUp (refl, omega arith)
