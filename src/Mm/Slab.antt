-- ===== src/Mm/Slab.antt =====
-- The slab allocator, kernel/mm/slab.c. A slab is one page: a header of 40 bytes and the objects behind
-- it. The member `bitmap[0]` of the header stands at offset 36, where the compiler pads, so that byte
-- `b` of the bitmap is byte `36 + b` of the page: from byte 4 on the bitmap lies in the first objects.
-- What callers write into their objects is not modelled.
pub mod Count
pub mod Object
pub mod Sizes
pub mod Cache
pub mod Caches
mod Tests
use oscomp.Common.{
  ℕ, zero, suc, ◌+◌, ◌-◌, ◌*◌, ◌/◌, ◌%◌, ◌^◌, ◌==◌, ltb, leb, Bool, true, false, not, ◌&&◌, ◌||◌,
  Option, none, some, List, [], ◌∷◌, get_or, replicate, if◌then◌else◌, scan,
}
use oscomp.Bitmap.{setbit, clearbit, testbit, firstzero}
use oscomp.Mm.Space.{page_size}

-- `struct slab_header`, less the links. A slab is known by the address of its page.
pub record Slab : Type 0 where
  pub free_count : ℕ
  pub total_count : ℕ
  pub obj_size : ℕ
  pub bitmap : List ℕ

-- `sizeof(struct slab_header)`, and the offset of `bitmap`.
abbrev pub header_size : ℕ
header_size = 40

abbrev pub bitmap_offset : ℕ
bitmap_offset = 36

abbrev pub slab_sizes : List ℕ
slab_sizes = 16 ∷ 32 ∷ 64 ∷ 128 ∷ 256 ∷ 512 ∷ 1024 ∷ 2048 ∷ []

-- `n` bytes are set to 0, from place `lo` on.
abbrev pub zero_bytes : List ℕ → ℕ → ℕ → List ℕ
zero_bytes [] lo n = []
zero_bytes (b ∷ bs) zero zero = b ∷ bs
zero_bytes (b ∷ bs) zero (suc n) = 0 ∷ zero_bytes bs zero n
zero_bytes (b ∷ bs) (suc lo) n = b ∷ zero_bytes bs lo n

pub index_to_obj : ℕ → ℕ → ℕ → ℕ
index_to_obj page size idx = page + header_size + idx * size

-- C rounds the quotient of a negative difference towards 0, and takes it modulo 2 ^ 32.
pub obj_index : ℕ → ℕ → ℕ → ℕ
obj_index page size obj =
    if ltb obj (page + header_size)
    then (2 ^ 32 - (page + header_size - obj) / size) % 2 ^ 32
    else (obj - (page + header_size)) / size % 2 ^ 32

-- A fresh slab, on a page that is there.
pub slab_header_init : ℕ → Slab
slab_header_init size =
    let obj_size = (size + 7) / 8 * 8 in
    let bitmap_size = (page_size / obj_size + 7) / 8 in
    let total = (page_size - header_size - bitmap_size) / obj_size in
    record {
      free_count = total;
      total_count = total;
      obj_size = obj_size;
      bitmap = replicate bitmap_size 0;
    }

-- The object at `idx` is marked, and its memory is cleared.
pub mark_object : Slab → ℕ → Slab
mark_object s idx = record s {
  free_count = (s.free_count + (2 ^ 32 - 1)) % 2 ^ 32;
  bitmap =
      zero_bytes (setbit s.bitmap idx) (header_size - bitmap_offset + idx * s.obj_size) s.obj_size;
}

-- What `slab_alloc_obj` does to the slab that it chose, with the index that it found; `none` is the
-- panic.
pub take_at : Slab → Option ℕ → Option (Slab × ℕ)
unfolding mark_object
take_at s none = none
take_at s (some idx) = some (mark_object s idx, idx)

pub take_object : Slab → Option (Slab × ℕ)
unfolding take_at
take_object s = take_at s (firstzero s.bitmap s.total_count)

-- What `slab_free_obj` does to the slab of the object; `none` is a panic.
pub give_object : Slab → ℕ → Option Slab
give_object s idx =
    if leb s.total_count idx
    then none
    else if testbit s.bitmap idx == 0
    then none
    else some
        (record s { free_count = (s.free_count + 1) % 2 ^ 32; bitmap = clearbit s.bitmap idx })

-- The number of the cache; `none` is null.
pub slab_cache_for_size : ℕ → Option ℕ
slab_cache_for_size size = scan (λ i. leb ((size + 7) / 8 * 8) (get_or slab_sizes i 0)) 8 0
