-- ===== src/Mm/Slab/Cache.antt =====
-- The slabs of one size, kernel/mm/slab.c: a slab stands in one of three lists, by the address of its
-- page. `put_page` is not modelled: the page that is given up is part of the result.
pub mod Laws
use oscomp.Common.{
  ℕ, zero, suc, ◌+◌, ◌-◌, ◌*◌, ◌/◌, ◌%◌, ◌^◌, ◌==◌, ltb, leb, Bool, true, false, not, Option, none,
  some, List, [], ◌∷◌, get_or, map, if◌then◌else◌,
}
use oscomp.Mm.Slab.{
  Slab, slab_sizes, index_to_obj, obj_index, slab_header_init, take_object, give_object,
}

-- `struct kmem_cache`, with the headers of its slabs.
pub record Cache : Type 0 where
  pub obj_size : ℕ
  pub slabs_full : List ℕ
  pub slabs_partial : List ℕ
  pub slabs_free : List ℕ
  pub free_objects : ℕ
  pub slabs : ℕ → Slab

abbrev pub update_slab : (ℕ → Slab) → ℕ → Slab → ℕ → Slab
update_slab slabs p s q = if p == q then s else slabs q

-- One cache of `slab_init`.
unfoldable pub empty_cache : ℕ → Cache
empty_cache size = record {
  obj_size = size;
  slabs_full = [];
  slabs_partial = [];
  slabs_free = [];
  free_objects = 0;
  slabs = λ p. slab_header_init size;
}

unfoldable pub slab_init : List Cache
unfolding empty_cache
slab_init = map empty_cache slab_sizes

-- A slab for the partial list that is empty: a free one, or the page that `alloc_page` gives. `none` is
-- out of memory.
pub refill : Cache → List ℕ → Option ℕ → Option Cache
refill c (p ∷ ps) page = some (record c { slabs_partial = p ∷ []; slabs_free = ps })
refill c [] none = none
refill c [] (some p) = some (record c {
  slabs_partial = p ∷ [];
  slabs = update_slab c.slabs p (slab_header_init c.obj_size);
})

-- The partial list, the free list, and the page.
pub choose_slab : Cache → List ℕ → List ℕ → Option ℕ → Option Cache
unfolding refill
choose_slab c (p ∷ ps) free page = some c
choose_slab c [] free page = refill c free page

-- The slab at `p`, the first of the partial list, has given an object.
pub taken_from : Cache → ℕ → List ℕ → Option (Slab × ℕ) → Option (Cache × Option ℕ)
unfolding index_to_obj
taken_from c p ps none = none
taken_from c p ps (some (s, idx)) =
    let counted = record c {
      slabs = update_slab c.slabs p s;
      free_objects = (c.free_objects + (2 ^ 32 - 1)) % 2 ^ 32;
    } in
    some (
      if s.free_count == 0
          then record counted { slabs_partial = ps; slabs_full = p ∷ c.slabs_full }
          else counted,
      some (index_to_obj p s.obj_size idx),
    )

-- The second part of `slab_alloc_obj`. The partial list is not empty there.
pub alloc_partial : Cache → List ℕ → Option (Cache × Option ℕ)
unfolding taken_from take_object
alloc_partial c [] = none
alloc_partial c (p ∷ ps) = taken_from c p ps (take_object (c.slabs p))

pub alloc_chosen : Cache → Option Cache → Option (Cache × Option ℕ)
unfolding alloc_partial
alloc_chosen c none = some (c, none)
alloc_chosen c (some c') = alloc_partial c' c'.slabs_partial

-- The outer `none` is the panic, the inner one null. `page` is what `alloc_page` would give.
unfoldable pub slab_alloc_obj : Cache → Option ℕ → Option (Cache × Option ℕ)
unfolding alloc_chosen choose_slab
slab_alloc_obj c page = alloc_chosen c (choose_slab c c.slabs_partial c.slabs_free page)

-- `list_del` takes a slab out of the list in which it stands.
abbrev pub unlink : ℕ → List ℕ → List ℕ
unlink p [] = []
unlink p (q ∷ qs) = if p == q then qs else q ∷ unlink p qs

pub list_del : Cache → ℕ → Cache
list_del c p = record c {
  slabs_full = unlink p c.slabs_full;
  slabs_partial = unlink p c.slabs_partial;
  slabs_free = unlink p c.slabs_free;
}

-- The last of a list.
abbrev pub last : List ℕ → ℕ → ℕ
last [] d = d
last (p ∷ ps) d = last ps p

-- The last free slab is given up when there are too many free objects.
pub trim : Cache → ℕ → Cache × Option ℕ
unfolding list_del
trim c total =
    if ltb (2 * total % 2 ^ 32) c.free_objects
    then (
      record (list_del c (last c.slabs_free 0)) {
        free_objects =
            (c.free_objects + (2 ^ 32 - (c.slabs (last c.slabs_free 0)).free_count)) % 2 ^ 32;
      },
      some (last c.slabs_free 0),
    )
    else (c, none)

-- The slab at `p` has taken its object back.
pub given_to : Cache → ℕ → Option Slab → Option (Cache × Option ℕ)
unfolding trim
given_to c p none = none
given_to c p (some s) =
    let counted = record c {
      slabs = update_slab c.slabs p s;
      free_objects = (c.free_objects + 1) % 2 ^ 32;
    } in
    let away = list_del counted p in
    if s.free_count == 1
    then some (record away { slabs_partial = p ∷ away.slabs_partial }, none)
    else if s.free_count == s.total_count
    then some (trim (record away { slabs_free = p ∷ away.slabs_free }) s.total_count)
    else some (counted, none)

-- `none` is a panic; else the page that is given up, if one is.
unfoldable pub slab_free_obj : Cache → ℕ → ℕ → Option (Cache × Option ℕ)
unfolding given_to give_object obj_index
slab_free_obj c p obj =
    given_to c p (give_object (c.slabs p) (obj_index p (c.slabs p).obj_size obj))
