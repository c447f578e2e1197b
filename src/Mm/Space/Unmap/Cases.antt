-- ===== src/Mm/Space/Unmap/Cases.antt =====
-- When `do_unmap` refuses a range, and when it clears it.
use oscomp.Common.{
  ℕ, ◌+◌, ◌%◌, ◌^◌, ◌==◌, ◌<◌, ltb, leb, Bool, true, false, not, ◌||◌, Option, none, some, [], ◌≡◌,
  refl, sym, ◌∙◌, arith,
}
use mathlib.Core.Option.{some-injective}
use oscomp.Common.Errno.{ok, fail, enomem}
use oscomp.Mm.Space.{Area, Mm, page_size, add64, contains, meets, find_vma}
use oscomp.Mm.Space.Areas.{
  All, All-nth, nth, FoundIn, find_vma-Found, contains_once, IsArea, IsValid,
}
use oscomp.Mm.Space.Unmap.{
  split_first, split_last, unmap_from, after_front, after_split, free_range, do_unmap,
}
use oscomp.Mm.Space.Unmap.Loop.{remove_areas-cleared}
use oscomp.Mm.Space.Unmap.Laws.{split_first_refused}

-- The search for an address that an area holds finds that area.
pub find_vma_known :
    (mm : Mm) (addr i : ℕ) (a : Area) (r : Option (ℕ × Area))
    → IsValid mm
    → nth mm.vma_list i ≡ some a
    → contains addr a ≡ true
    → FoundIn (contains addr) mm.vma_list r
    → r ≡ some (i, a)
find_vma_known mm addr i a none v e h f =
    let no : contains addr a ≡ false = All-nth (λ b. contains addr b ≡ false) mm.vma_list i a f e in
    absurd (ground (arith, no, h))
find_vma_known mm addr i a (some (j, b)) v e h (g, k) =
    let place : i ≡ j = contains_once mm addr i j a b v e g h k in
    let same : a ≡ b = some-injective _ _ (sym e ∙ rw place g) in rw (place, same) refl

find_vma_none :
    (mm : Mm) (addr : ℕ) (r : Option (ℕ × Area))
    → All (λ a. contains addr a ≡ false) mm.vma_list
    → FoundIn (contains addr) mm.vma_list r
    → r ≡ none
find_vma_none mm addr none h f = refl
find_vma_none mm addr (some (j, b)) h (g, k) =
    let no : contains addr b ≡ false = All-nth (λ a. contains addr a ≡ false) mm.vma_list j b h g in
    absurd (ground (arith, no, k))

do_unmap_checked :
    (mm : Mm) (start len : ℕ) (k₁ k₂ k₃ k₄ : Bool)
    → 0 < len
    → start % page_size ≡ 0
    → len % page_size ≡ 0
    → start + len < 2 ^ 64
    → do_unmap mm start len k₁ k₂ k₃ k₄
      ≡ unmap_from mm start (start + len) k₁ k₂ k₃ k₄ (find_vma mm start)
unfolding do_unmap
do_unmap_checked mm start len k₁ k₂ k₃ k₄ p a b h =
    let nonzero : (len == 0) ≡ false = ground arith in
    let aligned : (not (start % page_size == 0) || not (len % page_size == 0)) ≡ false =
      ground arith in
    let stop : add64 start len ≡ start + len = omega arith in
    let above : ltb (start + len) start ≡ false = ground arith in
    rw (nonzero, aligned, stop, above) refl

-- A range that begins inside of an area of a valid address space, behind its first address, is never
-- unmapped: `do_unmap` returns -ENOMEM and changes nothing, although all allocations may succeed.
pub do_unmap_inside :
    (mm : Mm) (start len : ℕ) (k₁ k₂ k₃ k₄ : Bool) (i : ℕ) (a : Area)
    → IsValid mm
    → 0 < len
    → start % page_size ≡ 0
    → len % page_size ≡ 0
    → start + len < 2 ^ 64
    → nth mm.vma_list i ≡ some a
    → a.vm_start < start
    → start < a.vm_end
    → do_unmap mm start len k₁ k₂ k₃ k₄ ≡ (mm, fail enomem, [])
unfolding unmap_from after_front
do_unmap_inside mm start len k₁ k₂ k₃ k₄ i a v p al bl h e l g =
    let found =
      find_vma_known mm start i a (find_vma mm start) v e (ground arith)
        (find_vma-Found mm start) in
    let before : leb (start + len) a.vm_start ≡ false = ground arith in
    let fits = (All-nth IsArea mm.vma_list i a v.areas e).1 in
    do_unmap_checked mm start len k₁ k₂ k₃ k₄ p al bl h
    ∙ rw (found, before, split_first_refused mm start k₁ k₂ i a e l g fits) refl

-- A range that begins at the first address of an area and does not end inside of one is unmapped, if no
-- area starts at its end or behind: `do_unmap` returns 0, and no area that is left meets the range.
pub do_unmap-cleared :
    (mm : Mm) (start len : ℕ) (k₁ k₂ k₃ k₄ : Bool) (i : ℕ) (a : Area)
    → IsValid mm
    → 0 < len
    → start % page_size ≡ 0
    → len % page_size ≡ 0
    → start + len < 2 ^ 64
    → nth mm.vma_list i ≡ some a
    → a.vm_start ≡ start
    → All (λ b. contains (start + len) b ≡ false) mm.vma_list
    → All (λ b. b.vm_start < start + len) mm.vma_list
    → ((do_unmap mm start len k₁ k₂ k₃ k₄).1 ≡ ok 0)
      × All
          (λ b. meets start (start + len) b ≡ false)
          (do_unmap mm start len k₁ k₂ k₃ k₄).0.vma_list
unfolding unmap_from after_front split_first split_last after_split free_range
do_unmap-cleared mm start len k₁ k₂ k₃ k₄ i a v p al bl h e s c o =
    let nonempty = (All-nth IsArea mm.vma_list i a v.areas e).0 in
    let found =
      find_vma_known mm start i a (find_vma mm start) v e (ground arith)
        (find_vma-Found mm start) in
    let last =
      find_vma_none mm (start + len) (find_vma mm (start + len)) c
        (find_vma-Found mm (start + len)) in
    let before : leb (start + len) a.vm_start ≡ false = ground arith in
    let front : ltb a.vm_start start ≡ false = ground arith in
    rw (do_unmap_checked mm start len k₁ k₂ k₃ k₄ p al bl h, found, before, front, last)
      (refl, remove_areas-cleared mm.vma_list start (start + len) o)
