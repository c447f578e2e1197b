-- ===== src/Mm/Space/Brk.antt =====
-- The heap, `do_brk` of kernel/mm/mmap.c. An error number is returned as `fail`.
pub mod Laws
pub mod Empty
use oscomp.Common.{
  ℕ, zero, suc, ◌+◌, ◌-◌, ◌*◌, ◌/◌, ◌%◌, ◌^◌, ◌==◌, ltb, leb, Bool, true, false, not, ◌&&◌, ◌||◌,
  Option, none, some, List, [], ◌∷◌, ◌++◌, set, replicate, if◌then◌else◌,
}
use oscomp.Common.Bits.{set_bit}
use oscomp.Common.Errno.{Ret, ok, fail, einval, enomem}
use oscomp.Mm.Flags.{prot_read, prot_write, vm_growsup, vm_private, vm_user}
use oscomp.Mm.Space.{
  Area, Mm, VmaType, vma_heap, page_size, add64, roundup, is_null, find_vma, find_vma_intersection,
  vm_area_setup,
}
use oscomp.Mm.Space.Unmap.{take, drop, present}

abbrev pub is_heap : VmaType → Bool
is_heap vma_heap = true
is_heap _ = false

-- `PROT_READ | PROT_WRITE`
abbrev pub heap_prot : ℕ
heap_prot = 3

-- `VM_GROWSUP | VM_PRIVATE | VM_USER`
abbrev pub heap_flags : ℕ
heap_flags = 3088

abbrev pub with_brk : Mm → ℕ → Mm
with_brk mm new_brk = record mm { brk = new_brk }

-- The heap area with the new end; `none` where its larger array of pages cannot be allocated.
pub extended : Area → ℕ → Bool → Option Area
extended a new_brk k =
    let npages = (new_brk - a.vm_start + page_size - 1) / page_size in
    if not (ltb a.page_count npages)
    then some (record a { vm_end = new_brk })
    else if k
    then some (record a {
      vm_end = new_brk;
      pages = a.pages ++ replicate (npages - a.page_count) none;
      page_count = npages;
    })
    else none

-- The area at place `i` takes the place of the old one.
pub extend_at : Mm → ℕ → ℕ → Option Area → Mm × Ret
extend_at mm new_brk i none = (mm, fail enomem)
extend_at mm new_brk i (some a) =
    (with_brk (record mm { vma_list = set mm.vma_list i a }) new_brk, ok new_brk)

pub grown_by_area : ℕ → Mm × Option Area → Mm × Ret
grown_by_area new_brk (mm, none) = (mm, fail enomem)
grown_by_area new_brk (mm, some _) = (with_brk mm new_brk, ok new_brk)

pub new_heap : Mm → ℕ → Bool → Bool → Mm × Ret
unfolding grown_by_area
new_heap mm new_brk k₁ k₂ =
    grown_by_area new_brk
      (vm_area_setup mm mm.brk (new_brk - mm.brk) vma_heap heap_prot heap_flags k₁ k₂)

-- The area in front of the break is found, or there is none.
pub grow_from : Mm → ℕ → Bool → Bool → Option (ℕ × Area) → Mm × Ret
unfolding new_heap extend_at extended
grow_from mm new_brk k₁ k₂ none = new_heap mm new_brk k₁ k₂
grow_from mm new_brk k₁ k₂ (some (i, a)) =
    if not (a.vm_end == mm.brk) || not (is_heap a.vm_type)
    then new_heap mm new_brk k₁ k₂
    else extend_at mm new_brk i (extended a new_brk k₁)

pub grow : Mm → ℕ → Bool → Bool → Mm × Ret
unfolding grow_from
grow mm new_brk k₁ k₂ =
    if not (is_null (find_vma_intersection mm mm.brk new_brk))
    then (mm, fail enomem)
    else grow_from mm new_brk k₁ k₂ (find_vma mm (add64 mm.brk (2 ^ 64 - 1)))

-- `n` pages are set to null, from place `lo` on.
abbrev pub clear_pages : List (Option ℕ) → ℕ → ℕ → List (Option ℕ)
clear_pages [] lo n = []
clear_pages (p ∷ ps) zero zero = p ∷ ps
clear_pages (p ∷ ps) zero (suc n) = none ∷ clear_pages ps zero n
clear_pages (p ∷ ps) (suc lo) n = p ∷ clear_pages ps lo n

-- The loop over the addresses from `new_brk` up to the old break gives up the pages of the area there.
pub shrunk : Area → ℕ → ℕ → Area
shrunk a new_brk old_brk =
    let lo = (new_brk - a.vm_start) / page_size in
    let n = (old_brk - new_brk + page_size - 1) / page_size in
    record a { vm_end = new_brk; pages = clear_pages a.pages lo n }

pub given_up : Area → ℕ → ℕ → List ℕ
given_up a new_brk old_brk =
    let lo = (new_brk - a.vm_start) / page_size in
    let n = (old_brk - new_brk + page_size - 1) / page_size in present (take n (drop lo a.pages))

-- The area at the new break is found, or there is none.
pub shrink_from : Mm → ℕ → Option (ℕ × Area) → Mm × Ret × List ℕ
unfolding shrunk given_up
shrink_from mm new_brk none = (with_brk mm new_brk, ok new_brk, [])
shrink_from mm new_brk (some (i, a)) =
    if ltb a.vm_start new_brk && is_heap a.vm_type
    then (
      with_brk (record mm { vma_list = set mm.vma_list i (shrunk a new_brk mm.brk) }) new_brk,
      ok new_brk,
      given_up a new_brk mm.brk,
    )
    else (with_brk mm new_brk, ok new_brk, [])

abbrev pub no_pages : Mm × Ret → Mm × Ret × List ℕ
no_pages (mm, r) = (mm, r, [])

-- `new_brk` is rounded up, and is not 0 before.
pub move_brk : Mm → ℕ → Bool → Bool → Mm × Ret × List ℕ
unfolding grow shrink_from
move_brk mm new_brk k₁ k₂ =
    if ltb new_brk mm.start_brk
    then (mm, fail einval, [])
    else if new_brk == mm.brk
    then (mm, ok mm.brk, [])
    else if ltb mm.brk new_brk
    then no_pages (grow mm new_brk k₁ k₂)
    else shrink_from mm new_brk (find_vma mm new_brk)

-- The pages in the result are those that are unmapped and given up.
pub do_brk : Mm → ℕ → Bool → Bool → Mm × Ret × List ℕ
unfolding move_brk
do_brk mm new_brk k₁ k₂ =
    if new_brk == 0 then (mm, ok mm.brk, []) else move_brk mm (roundup new_brk) k₁ k₂
