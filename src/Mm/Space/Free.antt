-- ===== src/Mm/Space/Free.antt =====
-- The search for free addresses, `find_free_area` of kernel/mm/mmap.c. The loop runs on fuel.
use oscomp.Common.{
  ℕ, zero, suc, ◌+◌, ◌*◌, ◌^◌, ◌≤◌, ◌<◌, true, false, Option, none, some, if◌then◌else◌, leb, ◌≡◌,
  refl, arith, Bool-cases, inl, inr,
}
use oscomp.Mm.Space.{
  Area, Mm, page_size, add64, roundup, is_null, meets, find_area, find_vma_intersection,
}
use oscomp.Mm.Space.Areas.{All, All-nth, FoundIn, find_area-FoundIn}

-- `none` is a loop that has run out of fuel.
pub free_from : Mm → ℕ → ℕ → ℕ → Option ℕ
free_from mm length zero addr = none
free_from mm length (suc n) addr =
    let rest = free_from mm length n (roundup (add64 addr page_size)) in
    if is_null (find_vma_intersection mm addr (add64 addr length)) then some addr else rest

pub find_free_area : Mm → ℕ → ℕ → Option ℕ
unfolding free_from
find_free_area mm length fuel = free_from mm length fuel mm.brk

-- What the search returns: an address from `lo` on, at which the range is free.
abbrev pub FreeAt : Mm → ℕ → ℕ → Option ℕ → Type 0
FreeAt mm length lo r =
    (addr : ℕ) × (r ≡ some addr)
    × (lo ≤ addr)
    × (is_null (find_vma_intersection mm addr (add64 addr length)) ≡ true)

below_top :
    (mm : Mm) (start stop top : ℕ)
    → All (λ a. a.vm_end ≤ top) mm.vma_list
    → is_null (find_vma_intersection mm start stop) ≡ false
    → start < top
unfolding find_vma_intersection
below_top mm start stop top h e = elim (Bool-cases (leb stop start)) [
  | inl t ↦ absurd (ground (arith, rw t at e))
  | inr t ↦
      by_area (find_area (meets start stop) mm.vma_list)
        (find_area-FoundIn (meets start stop) mm.vma_list) (rw t at e)
]
  where
    by_area :
        (r : Option (ℕ × Area))
        → FoundIn (meets start stop) mm.vma_list r
        → is_null r ≡ false
        → start < top
    by_area none f e = absurd (ground (arith, e))
    by_area (some (i, a)) (g, k) e =
        let end = All-nth (λ b. b.vm_end ≤ top) mm.vma_list i a h g in ground (arith, k, end)

free_from-FreeAt :
    (mm : Mm) (length top n addr : ℕ)
    → All (λ a. a.vm_end ≤ top) mm.vma_list
    → top + 2 * page_size < 2 ^ 64
    → top ≤ addr + n * page_size
    → FreeAt mm length addr (free_from mm length (suc n) addr)
unfolding free_from
free_from-FreeAt mm length top zero addr h fits enough =
    elim (Bool-cases (is_null (find_vma_intersection mm addr (add64 addr length)))) [
      | inl t ↦ rw t (addr, refl, omega arith, t)
      | inr t ↦
          let low = below_top mm addr (add64 addr length) top h t in absurd (omega (arith, low))
    ]
free_from-FreeAt mm length top (suc n) addr h fits enough =
    elim (Bool-cases (is_null (find_vma_intersection mm addr (add64 addr length)))) [
      | inl t ↦ rw t (addr, refl, omega arith, t)
      | inr t ↦
          let low = below_top mm addr (add64 addr length) top h t in
          let (found, at, above, free) =
            free_from-FreeAt mm length top n (roundup (add64 addr page_size)) h fits
              (omega (arith, low)) in
          rw t (found, at, omega (arith, low, above), free)
    ]

-- `find_free_area` ends with a range of free addresses at the break or behind it, if no area reaches
-- the last two pages of the address space; one round, and one for each page from the break up to the
-- last area, are enough.
pub find_free_area-FreeAt :
    (mm : Mm) (length top n : ℕ)
    → All (λ a. a.vm_end ≤ top) mm.vma_list
    → top + 2 * page_size < 2 ^ 64
    → top ≤ mm.brk + n * page_size
    → FreeAt mm length mm.brk (find_free_area mm length (suc n))
unfolding find_free_area
find_free_area-FreeAt mm length top n h fits enough =
    free_from-FreeAt mm length top n mm.brk h fits enough
