-- ===== src/Mm/Space/Unmap.antt =====
-- Removal of a range of addresses, `do_unmap` of kernel/mm/mmap.c.
mod Loop
pub mod Laws
pub mod Cases
use oscomp.Common.{
  ℕ, zero, suc, ◌+◌, ◌-◌, ◌*◌, ◌/◌, ◌%◌, ◌==◌, ltb, leb, min, max, Bool, true, false, not, ◌&&◌,
  ◌||◌, Option, none, some, List, [], ◌∷◌, ◌++◌, set, replicate, if◌then◌else◌,
}
use oscomp.Common.Errno.{Ret, ok, fail, einval, enomem}
use oscomp.Mm.Space.{Area, Mm, page_size, add64, contains, find_area, find_vma, vm_area_setup}

-- The first `n` entries, and the others.
abbrev pub take {ℓ} : {A : Type ℓ} → ℕ → List A → List A
take zero xs = []
take (suc n) [] = []
take (suc n) (x ∷ xs) = x ∷ take n xs

abbrev pub drop {ℓ} : {A : Type ℓ} → ℕ → List A → List A
drop zero xs = xs
drop (suc n) [] = []
drop (suc n) (x ∷ xs) = drop n xs

-- The pages that are there, in order: each is unmapped, and its reference is given up.
abbrev pub present : List (Option ℕ) → List ℕ
present [] = []
present (none ∷ ps) = present ps
present (some p ∷ ps) = p ∷ present ps

-- The split of the area at place `i` at `start`. The area for the front is set up first, at place 0.
pub split_front : Mm → ℕ → Area → ℕ → Mm × Option Area → Mm × Ret
split_front mm i a start (mm', none) = (mm', fail enomem)
split_front mm i a start (mm', some b) =
    let n = (start - a.vm_start) / page_size in
    let front = record b { pages = take n a.pages ++ drop n b.pages } in
    let back = record a { pages = drop n a.pages ++ replicate n none; vm_start = start } in
    (record mm' { vma_list = set (set mm'.vma_list 0 front) (suc i) back }, ok 0)

-- The split of the area at place `i` at `stop`.
pub split_back : Mm → ℕ → Area → ℕ → Mm × Option Area → Mm × Ret
split_back mm i a stop (mm', none) = (mm', fail enomem)
split_back mm i a stop (mm', some b) =
    let n = (stop - a.vm_start) / page_size in
    let back = record b { pages = drop n a.pages ++ drop (a.page_count - n) b.pages } in
    let front = record a {
      pages = take n a.pages ++ replicate (a.page_count - n) none;
      vm_end = stop;
    } in
    (record mm' { vma_list = set (set mm'.vma_list 0 back) (suc i) front }, ok 0)

-- The pages of an area that lie in the range.
pub released_pages : Area → ℕ → ℕ → List ℕ
released_pages a start stop =
    let lo = (max start a.vm_start - a.vm_start) / page_size in
    let hi = (min stop a.vm_end - a.vm_start + page_size - 1) / page_size in
    present (drop lo (take (min hi a.page_count) a.pages))

-- The loop that frees: the areas that stay, and the pages that are given up. It breaks off at the first
-- area that starts behind the range.
pub remove_areas : List Area → ℕ → ℕ → List Area × List ℕ
remove_areas [] start stop = ([], [])
remove_areas (a ∷ xs) start stop =
    let (kept, released) = remove_areas xs start stop in
    if leb stop a.vm_start
    then (a ∷ xs, [])
    else if leb a.vm_end start
    then (a ∷ kept, released)
    else (kept, released_pages a start stop ++ released)

-- The number of areas that the loop frees.
pub removed : List Area → ℕ → ℕ → ℕ
removed [] start stop = 0
removed (a ∷ xs) start stop =
    let rest = removed xs start stop in
    if leb stop a.vm_start then 0 else if leb a.vm_end start then rest else rest + 1

pub free_range : Mm → ℕ → ℕ → Mm × Ret × List ℕ
unfolding remove_areas removed
free_range mm start stop = (
  record mm {
    vma_list = (remove_areas mm.vma_list start stop).0;
    map_count = mm.map_count - removed mm.vma_list start stop;
  },
  ok 0,
  (remove_areas mm.vma_list start stop).1,
)

-- The loop that frees, if the split before it succeeded.
pub after_split : ℕ → ℕ → Mm × Ret → Mm × Ret × List ℕ
unfolding free_range
after_split start stop (mm, fail e) = (mm, fail e, [])
after_split start stop (mm, ok _) = free_range mm start stop

pub split_last : Mm → ℕ → ℕ → Bool → Bool → Option (ℕ × Area) → Mm × Ret
unfolding split_back
split_last mm start stop k₁ k₂ none = (mm, ok 0)
split_last mm start stop k₁ k₂ (some (i, a)) =
    if ltb a.vm_start stop && ltb stop a.vm_end
    then split_back mm i a stop
        (vm_area_setup mm stop (a.vm_end - stop) a.vm_type a.vm_prot a.vm_flags k₁ k₂)
    else (mm, ok 0)

pub after_front : ℕ → ℕ → Bool → Bool → Mm × Ret → Mm × Ret × List ℕ
unfolding after_split split_last
after_front start stop k₁ k₂ (mm, fail e) = (mm, fail e, [])
after_front start stop k₁ k₂ (mm, ok _) =
    after_split start stop (split_last mm start stop k₁ k₂ (find_vma mm stop))

pub split_first : Mm → ℕ → Bool → Bool → ℕ → Area → Mm × Ret
unfolding split_front
split_first mm start k₁ k₂ i a =
    if ltb a.vm_start start
    then split_front mm i a start
        (vm_area_setup mm a.vm_start (start - a.vm_start) a.vm_type a.vm_prot a.vm_flags k₁ k₂)
    else (mm, ok 0)

-- The area that holds `start` is found, or there is none.
pub unmap_from : Mm → ℕ → ℕ → Bool → Bool → Bool → Bool → Option (ℕ × Area) → Mm × Ret × List ℕ
unfolding after_front split_first
unmap_from mm start stop k₁ k₂ k₃ k₄ none = (mm, ok 0, [])
unmap_from mm start stop k₁ k₂ k₃ k₄ (some (i, a)) =
    if leb stop a.vm_start
    then (mm, ok 0, [])
    else after_front start stop k₃ k₄ (split_first mm start k₁ k₂ i a)

-- The Booleans are the calls of kmalloc, two for each split.
pub do_unmap : Mm → ℕ → ℕ → Bool → Bool → Bool → Bool → Mm × Ret × List ℕ
unfolding unmap_from
do_unmap mm start len k₁ k₂ k₃ k₄ =
    if len == 0
    then (mm, fail einval, [])
    else if not (start % page_size == 0) || not (len % page_size == 0)
    then (mm, fail einval, [])
    else if ltb (add64 start len) start
    then (mm, fail einval, [])
    else unmap_from mm start (add64 start len) k₁ k₂ k₃ k₄ (find_vma mm start)
