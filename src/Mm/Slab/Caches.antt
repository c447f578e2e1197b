-- ===== src/Mm/Slab/Caches.antt =====
-- The caches of all sizes, kernel/mm/slab.c: slab_alloc and slab_free. The headers of slabs stand in
-- memory, by the address of their page, and are shared by the caches; a cache of the list has its
-- lists, and works on these headers.
pub mod Free
pub mod Laws
mod Tests
use oscomp.Common.{
  ℕ, zero, suc, ◌+◌, ◌*◌, ◌/◌, ◌%◌, ◌==◌, ltb, leb, Bool, true, false, Option, none, some, List,
  get_or, set, if◌then◌else◌, scan,
}
use oscomp.Mm.Space.{page_size}
use oscomp.Mm.Slab.{Slab, obj_index, slab_cache_for_size}
use oscomp.Mm.Slab.Cache.{Cache, empty_cache, slab_alloc_obj, slab_free_obj}

-- The array `slab_caches`, and the headers in memory.
pub record Allocator : Type 0 where
  pub slab_caches : List Cache
  pub headers : ℕ → Slab

-- The index is always below 8.
abbrev pub cache_at : Allocator → ℕ → Cache
cache_at s i = record (get_or s.slab_caches i (empty_cache 0)) { slabs = s.headers }

abbrev pub with_cache : Allocator → ℕ → Cache → Allocator
with_cache s i c = record { slab_caches = set s.slab_caches i c; headers = c.slabs }

abbrev pub allocated : Allocator → ℕ → Option (Cache × Option ℕ) → Option (Allocator × Option ℕ)
allocated s i none = none
allocated s i (some (c, r)) = some (with_cache s i c, r)

abbrev pub alloc_from : Allocator → Option ℕ → Option ℕ → Option (Allocator × Option ℕ)
unfolding slab_alloc_obj
alloc_from s page none = none
alloc_from s page (some i) = allocated s i (slab_alloc_obj (cache_at s i) page)

-- The outer `none` is a panic, the inner one null. `page` is what `alloc_page` would give.
pub slab_alloc : Allocator → ℕ → Option ℕ → Option (Allocator × Option ℕ)
unfolding alloc_from slab_cache_for_size
slab_alloc s size page =
    if ltb 2048 size then some (s, none) else alloc_from s page (slab_cache_for_size size)

abbrev pub find_slab : ℕ → ℕ
find_slab ptr = ptr / page_size * page_size

-- The state, whether 1 is returned, and the page that is given up.
abbrev pub freed : Allocator → ℕ → Option (Cache × Option ℕ) → Option (Allocator × Bool × Option ℕ)
freed s i none = none
freed s i (some (c, page)) = some (with_cache s i c, true, page)

abbrev pub free_to : Allocator → ℕ → ℕ → Option ℕ → Option (Allocator × Bool × Option ℕ)
unfolding slab_free_obj
free_to s p obj none = some (s, false, none)
free_to s p obj (some i) = freed s i (slab_free_obj (cache_at s i) p obj)

-- The cache with the object size of the slab.
abbrev pub has_size : Allocator → ℕ → ℕ → Bool
has_size s size i = (cache_at s i).obj_size == size

pub slab_free : Allocator → ℕ → Option (Allocator × Bool × Option ℕ)
unfolding free_to obj_index
slab_free s ptr =
    let p = find_slab ptr in
    let h = s.headers p in
    if ptr == 0
    then some (s, false, none)
    else if leb h.total_count (obj_index p h.obj_size ptr)
    then some (s, false, none)
    else free_to s p ptr (scan (has_size s h.obj_size) 8 0)
