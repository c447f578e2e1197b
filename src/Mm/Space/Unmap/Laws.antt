-- ===== src/Mm/Space/Unmap/Laws.antt =====
-- What `do_unmap` removes, and when it refuses.
use oscomp.Common.{
  ℕ, ◌-◌, ◌%◌, ◌^◌, ◌==◌, ◌<◌, ltb, leb, Bool, true, false, not, ◌&&◌, ◌||◌, Option, none, some,
  ◌≡◌, refl, arith, Bool-cases, inl, inr, ◌⊎◌,
}
use oscomp.Common.Errno.{Ret, ok, fail, enomem}
use oscomp.Mm.Space.{Area, Mm, page_size, add64, contains, meets, find_vma, vm_area_setup}
use oscomp.Mm.Space.Areas.{All, All-nth, nth, FoundIn, find_vma-Found, IsArea, IsValid}
use oscomp.Mm.Space.Setup.{vm_area_setup_taken}
use oscomp.Mm.Space.Unmap.Loop.{
  remove_areas-All, remove_areas-IsDisjoint, length-remove_areas, remove_areas-kept,
}
use oscomp.Mm.Space.Unmap.{
  split_first, split_front, split_last, split_back, unmap_from, after_front, after_split,
  free_range, do_unmap,
}

-- The front of an area cannot be split off: the area itself is in the way.
pub split_first_refused :
    (mm : Mm) (start : ℕ) (k₁ k₂ : Bool) (i : ℕ) (a : Area)
    → nth mm.vma_list i ≡ some a
    → a.vm_start < start
    → start < a.vm_end
    → a.vm_end < 2 ^ 64
    → split_first mm start k₁ k₂ i a ≡ (mm, fail enomem)
unfolding split_first split_front
split_first_refused mm start k₁ k₂ i a e l h g =
    let from : ltb a.vm_start start ≡ true = ground arith in
    let stop : add64 a.vm_start (start - a.vm_start) ≡ start = omega arith in
    let hit : meets a.vm_start (add64 a.vm_start (start - a.vm_start)) a ≡ true =
      rw stop (ground arith) in
    rw
      (
        from,
        vm_area_setup_taken mm a.vm_start (start - a.vm_start) a.vm_type a.vm_prot a.vm_flags k₁ k₂
            i a e hit,
      )
      refl

-- Neither can its back.
split_back_refused :
    (mm : Mm) (stop : ℕ) (k₁ k₂ : Bool) (i : ℕ) (a : Area)
    → nth mm.vma_list i ≡ some a
    → a.vm_start < stop
    → stop < a.vm_end
    → a.vm_end < 2 ^ 64
    → split_back mm i a stop
        (vm_area_setup mm stop (a.vm_end - stop) a.vm_type a.vm_prot a.vm_flags k₁ k₂)
      ≡ (mm, fail enomem)
unfolding split_back
split_back_refused mm stop k₁ k₂ i a e l h g =
    let end : add64 stop (a.vm_end - stop) ≡ a.vm_end = omega arith in
    let hit : meets stop (add64 stop (a.vm_end - stop)) a ≡ true = rw end (ground arith) in
    rw
      (vm_area_setup_taken mm stop (a.vm_end - stop) a.vm_type a.vm_prot a.vm_flags k₁ k₂ i a e hit)
      refl

-- What a split returns: it leaves the address space as it was.
abbrev Same : Mm → Mm × Ret → Type 0
Same mm r = (r ≡ (mm, fail enomem)) ⊎ (r ≡ (mm, ok 0))

split_first-Same :
    (mm : Mm) (start : ℕ) (k₁ k₂ : Bool) (i : ℕ) (a : Area)
    → All IsArea mm.vma_list
    → nth mm.vma_list i ≡ some a
    → contains start a ≡ true
    → Same mm (split_first mm start k₁ k₂ i a)
unfolding split_first
split_first-Same mm start k₁ k₂ i a v e h = elim (Bool-cases (ltb a.vm_start start)) [
  | inl t ↦ inl (
      split_first_refused mm start k₁ k₂ i a e (ground arith) (ground arith)
        (All-nth IsArea mm.vma_list i a v e).1)
  | inr t ↦ inr (rw t refl)
]

split_last-Same :
    (mm : Mm) (start stop : ℕ) (k₁ k₂ : Bool) (r : Option (ℕ × Area))
    → All IsArea mm.vma_list
    → FoundIn (contains stop) mm.vma_list r
    → Same mm (split_last mm start stop k₁ k₂ r)
unfolding split_last
split_last-Same mm start stop k₁ k₂ none v f = inr refl
split_last-Same mm start stop k₁ k₂ (some (i, a)) v (e, h) =
    elim (Bool-cases (ltb a.vm_start stop && ltb stop a.vm_end)) [
      | inl t ↦ inl (
          rw t (
            split_back_refused mm stop k₁ k₂ i a e (ground arith) (ground arith)
              (All-nth IsArea mm.vma_list i a v e).1))
      | inr t ↦ inr (rw t refl)
    ]

-- What is left: the areas are valid, each is one of those before, and those outside of the range are
-- all there.
pub record Unmapped (mm mm' : Mm) (start stop : ℕ) : Type 1 where
  pub valid : IsValid mm'
  pub old : (P : Area → Type 0) → All P mm.vma_list → All P mm'.vma_list
  pub others :
      (i : ℕ) (b : Area)
      → nth mm.vma_list i ≡ some b
      → meets start stop b ≡ false
      → (j : ℕ) × (nth mm'.vma_list j ≡ some b)

free_range-Unmapped :
    (mm : Mm) (start stop : ℕ) → IsValid mm → Unmapped mm (free_range mm start stop).0 start stop
unfolding free_range
free_range-Unmapped mm start stop v = record {
  valid = record {
    areas = remove_areas-All IsArea mm.vma_list start stop v.areas;
    disjoint = remove_areas-IsDisjoint mm.vma_list start stop v.disjoint;
    counted = omega (arith, length-remove_areas mm.vma_list start stop, v.counted);
  };
  old = λ P h. remove_areas-All P mm.vma_list start stop h;
  others = λ i b e h. remove_areas-kept mm.vma_list start stop i b e h;
}

unchanged : (mm : Mm) (start stop : ℕ) → IsValid mm → Unmapped mm mm start stop
unchanged mm start stop v = record { valid = v; old = λ P h. h; others = λ i b e h. (i, e) }

after_split-Unmapped :
    (mm : Mm) (start stop : ℕ) (r : Mm × Ret)
    → IsValid mm
    → Same mm r
    → Unmapped mm (after_split start stop r).0 start stop
unfolding after_split
after_split-Unmapped mm start stop r v (inl e) = rw e (unchanged mm start stop v)
after_split-Unmapped mm start stop r v (inr e) = rw e (free_range-Unmapped mm start stop v)

after_front-Unmapped :
    (mm : Mm) (start stop : ℕ) (k₁ k₂ : Bool) (r : Mm × Ret)
    → IsValid mm
    → Same mm r
    → Unmapped mm (after_front start stop k₁ k₂ r).0 start stop
unfolding after_front
after_front-Unmapped mm start stop k₁ k₂ r v (inl e) = rw e (unchanged mm start stop v)
after_front-Unmapped mm start stop k₁ k₂ r v (inr e) = rw e (
    after_split-Unmapped mm start stop (split_last mm start stop k₁ k₂ (find_vma mm stop)) v
      (split_last-Same mm start stop k₁ k₂ (find_vma mm stop) v.areas (find_vma-Found mm stop)))

unmap_from-Unmapped :
    (mm : Mm) (start stop : ℕ) (k₁ k₂ k₃ k₄ : Bool) (r : Option (ℕ × Area))
    → IsValid mm
    → FoundIn (contains start) mm.vma_list r
    → Unmapped mm (unmap_from mm start stop k₁ k₂ k₃ k₄ r).0 start stop
unfolding unmap_from
unmap_from-Unmapped mm start stop k₁ k₂ k₃ k₄ none v f = unchanged mm start stop v
unmap_from-Unmapped mm start stop k₁ k₂ k₃ k₄ (some (i, a)) v (e, h) =
    elim (Bool-cases (leb stop a.vm_start)) [
      | inl t ↦ rw t (unchanged mm start stop v)
      | inr t ↦ rw t (
          after_front-Unmapped mm start stop k₃ k₄ (split_first mm start k₁ k₂ i a) v
            (split_first-Same mm start k₁ k₂ i a v.areas e h))
    ]

-- Whatever `do_unmap` returns, a valid address space stays valid, no area is new, and every area that
-- does not meet the range is still there.
pub do_unmap-Unmapped :
    (mm : Mm) (start len : ℕ) (k₁ k₂ k₃ k₄ : Bool)
    → IsValid mm
    → Unmapped mm (do_unmap mm start len k₁ k₂ k₃ k₄).0 start (add64 start len)
unfolding do_unmap
do_unmap-Unmapped mm start len k₁ k₂ k₃ k₄ v =
    let same = unchanged mm start (add64 start len) v in
    elim (Bool-cases (len == 0)) [
      | inl a ↦ rw a same
      | inr a ↦ elim (Bool-cases (not (start % page_size == 0) || not (len % page_size == 0))) [
        | inl b ↦ rw (a, b) same
        | inr b ↦ elim (Bool-cases (ltb (add64 start len) start)) [
          | inl c ↦ rw (a, b, c) same
          | inr c ↦
              rw (a, b, c)
                (unmap_from-Unmapped mm start (add64 start len) k₁ k₂ k₃ k₄ (find_vma mm start) v
                  (find_vma-Found mm start))
        ]
      ]
    ]
