-- ===== src/Mm/Space/Brk/Empty.antt =====
-- A heap that has been given back whole.
use oscomp.Common.{
  ℕ, ◌+◌, ◌%◌, ◌^◌, ◌==◌, ◌≤◌, ◌<◌, ltb, leb, Bool, true, false, some, [], ◌≡◌, refl, arith,
}
use oscomp.Common.Errno.{ok, fail, enomem}
use oscomp.Mm.Space.{Area, Mm, roundup, page_size, meets, find_vma, find_vma_intersection}
use oscomp.Mm.Space.Areas.{nth, All-nth, find_area-FoundIn, find_vma-Found, IsArea, IsValid}
use oscomp.Mm.Space.Setup.{found_some}
use oscomp.Mm.Space.Unmap.Cases.{find_vma_known}
use oscomp.Mm.Space.Brk.{with_brk, grow, shrink_from, move_brk, do_brk}

roundup_aligned : (n : ℕ) → n % page_size ≡ 0 → 0 < n → n < 2 ^ 64 → roundup n ≡ n
roundup_aligned n h p f = omega arith

le-roundup : (n : ℕ) → 0 < n → n + page_size ≤ 2 ^ 64 → n ≤ roundup n
le-roundup n p f = omega arith

-- `do_brk` down to the first address of an area only moves the break: the area stays.
pub do_brk_to_start :
    (mm : Mm) (i : ℕ) (a : Area) (k₁ k₂ : Bool)
    → IsValid mm
    → nth mm.vma_list i ≡ some a
    → 0 < a.vm_start
    → a.vm_start % page_size ≡ 0
    → mm.start_brk ≤ a.vm_start
    → a.vm_start < mm.brk
    → do_brk mm a.vm_start k₁ k₂ ≡ (with_brk mm a.vm_start, ok a.vm_start, [])
unfolding do_brk move_brk shrink_from
do_brk_to_start mm i a k₁ k₂ v e p al low high =
    let area = All-nth IsArea mm.vma_list i a v.areas e in
    let up = roundup_aligned a.vm_start al p (omega (arith, area.0, area.1)) in
    let found =
      find_vma_known mm a.vm_start i a (find_vma mm a.vm_start) v e (ground (arith, area.0))
        (find_vma-Found mm a.vm_start) in
    let nonzero : (a.vm_start == 0) ≡ false = ground arith in
    let allowed : ltb a.vm_start mm.start_brk ≡ false = ground arith in
    let moved : (a.vm_start == mm.brk) ≡ false = ground arith in
    let down : ltb mm.brk a.vm_start ≡ false = ground arith in
    let whole : ltb a.vm_start a.vm_start ≡ false = ground arith in
    rw (nonzero, up, allowed, moved, down, found, whole) refl

-- The break cannot move up over an area.
grow_refused :
    (mm : Mm) (new_brk i : ℕ) (a : Area) (k₁ k₂ : Bool)
    → nth mm.vma_list i ≡ some a
    → mm.brk < a.vm_end
    → a.vm_start < new_brk
    → mm.brk < new_brk
    → grow mm new_brk k₁ k₂ ≡ (mm, fail enomem)
unfolding grow find_vma_intersection
grow_refused mm new_brk i a k₁ k₂ e h g up =
    let hit =
      found_some (meets mm.brk new_brk) mm.vma_list i a _ e (ground arith)
        (find_area-FoundIn (meets mm.brk new_brk) mm.vma_list) in
    let some_room : leb new_brk mm.brk ≡ false = ground arith in rw (some_room, hit) refl

-- When the heap has been shrunk to its first address, its area stays behind empty-handed, and every
-- later call that would move the break up fails with -ENOMEM.
pub do_brk_after_empty :
    (mm : Mm) (i n : ℕ) (a : Area) (k₁ k₂ k₃ k₄ : Bool)
    → IsValid mm
    → nth mm.vma_list i ≡ some a
    → 0 < a.vm_start
    → a.vm_start % page_size ≡ 0
    → mm.start_brk ≤ a.vm_start
    → a.vm_start < mm.brk
    → a.vm_start < n
    → n + page_size ≤ 2 ^ 64
    → do_brk (do_brk mm a.vm_start k₁ k₂).0 n k₃ k₄ ≡ (with_brk mm a.vm_start, fail enomem, [])
unfolding do_brk move_brk
do_brk_after_empty mm i n a k₁ k₂ k₃ k₄ v e p al low high up fits =
    let area = All-nth IsArea mm.vma_list i a v.areas e in
    let above = le-roundup n (omega arith) fits in
    let nonzero : (n == 0) ≡ false = ground arith in
    let allowed : ltb (roundup n) mm.start_brk ≡ false = ground (arith, above) in
    let moved : (roundup n == a.vm_start) ≡ false = ground (arith, above) in
    let grows : ltb a.vm_start (roundup n) ≡ true = ground (arith, above) in
    let refused =
      grow_refused (with_brk mm a.vm_start) (roundup n) i a k₃ k₄ e area.0 (omega (arith, above))
        (omega (arith, above)) in
    rw (do_brk_to_start mm i a k₁ k₂ v e p al low high, nonzero, allowed, moved, grows, refused)
      refl
