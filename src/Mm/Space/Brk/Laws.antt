-- ===== src/Mm/Space/Brk/Laws.antt =====
-- What `do_brk` does to the break and to the areas.
use oscomp.Common.{
  ℕ, ◌+◌, ◌-◌, ◌/◌, ◌^◌, ◌==◌, ◌≤◌, ◌<◌, ltb, Bool, true, false, not, ◌||◌, ◌&&◌, Option, none,
  some, set, length-set, if◌then◌else◌, ◌≡◌, refl, sym, ap, ◌∙◌, arith, Bool-cases, inl, inr,
  lt→leb, Option-cases, ◌++◌, replicate,
}
use mathlib.Core.Option.{some-injective, none-ne-some}
use oscomp.Common.Errno.{Ret, ok, fail, enomem}
use oscomp.Mm.Space.{
  Area, Mm, vma_heap, page_size, add64, roundup, is_null, contains, meets, find_area, find_vma,
  find_vma_intersection, vm_area_setup,
}
use oscomp.Mm.Space.Areas.{
  All, All-map, All-zip, All-nth, All-set, nth, FoundIn, find_area-FoundIn, find_vma-Found, Apart,
  IsArea, IsDisjoint-set, IsValid,
}
use oscomp.Mm.Space.Setup.{SetUp, vm_area_setup-SetUp}
use oscomp.Mm.Space.Brk.{
  is_heap, heap_prot, heap_flags, with_brk, extended, extend_at, grown_by_area, new_heap, grow_from,
  grow, shrunk, shrink_from, move_brk, do_brk,
}

-- What a call leaves: on success the break is at the returned address, else nothing has changed; and
-- the areas stay valid.
abbrev pub Moved : Mm → Mm → Ret → Type 0
Moved mm mm' (ok v) = (mm'.brk ≡ v) × (mm'.start_brk ≡ mm.start_brk) × IsValid mm'
Moved mm mm' (fail e) = mm' ≡ mm

new_heap-Moved :
    (mm : Mm) (new_brk : ℕ) (k₁ k₂ : Bool)
    → IsValid mm
    → Moved mm (new_heap mm new_brk k₁ k₂).0 (new_heap mm new_brk k₁ k₂).1
unfolding new_heap grown_by_area
new_heap-Moved mm new_brk k₁ k₂ v =
    by_area (vm_area_setup mm mm.brk (new_brk - mm.brk) vma_heap heap_prot heap_flags k₁ k₂)
      (vm_area_setup-SetUp mm mm.brk (new_brk - mm.brk) vma_heap heap_prot heap_flags k₁ k₂ v)
  where
    by_area :
        (r : Mm × Option Area)
        → SetUp mm mm.brk (add64 mm.brk (new_brk - mm.brk)) r.0 r.1
        → Moved mm (grown_by_area new_brk r).0 (grown_by_area new_brk r).1
    by_area (mm', none) s = s
    by_area (mm', some a) s = (
      refl,
      s.break_kept.1,
      record { areas = s.valid.areas; disjoint = s.valid.disjoint; counted = s.valid.counted },
    )

-- Replacing an area by one that spans other addresses.
replaced-IsValid :
    (Q : Area → Type 0) (mm : Mm) (i new_brk : ℕ) (a a' : Area)
    → IsValid mm
    → nth mm.vma_list i ≡ some a
    → IsArea a'
    → All Q mm.vma_list
    → ((b : Area) → Q b → Apart a b → Apart a' b)
    → IsValid (with_brk (record mm { vma_list = set mm.vma_list i a' }) new_brk)
replaced-IsValid Q mm i new_brk a a' v e h q f = record {
  areas = All-set IsArea mm.vma_list i a' v.areas h;
  disjoint = IsDisjoint-set Q mm.vma_list i a a' v.disjoint e q f;
  counted = v.counted ∙ sym (length-set mm.vma_list i a');
}

-- An area that ends at the break stays apart from the others when its end moves over free addresses.
grown-Apart :
    (a a' b : Area) (old new : ℕ)
    → a.vm_end ≡ old
    → a'.vm_start ≡ a.vm_start
    → a'.vm_end ≡ new
    → (meets old new b ≡ false) × (b.vm_start < b.vm_end)
    → Apart a b
    → Apart a' b
grown-Apart a a' b old new e f g (h, p) (inl l) = inl (ground arith)
grown-Apart a a' b old new e f g (h, p) (inr r) = inr (omega arith)

shrunk-Apart :
    (a a' b : Area) → a'.vm_start ≡ a.vm_start → a'.vm_end ≤ a.vm_end → Apart a b → Apart a' b
shrunk-Apart a a' b e h (inl l) = inl (omega arith)
shrunk-Apart a a' b e h (inr r) = inr (omega arith)

extended-span :
    (a a' : Area) (new_brk : ℕ) (k : Bool)
    → extended a new_brk k ≡ some a'
    → (a'.vm_start ≡ a.vm_start) × (a'.vm_end ≡ new_brk)
unfolding extended
extended-span a a' new_brk k e =
    elim (Bool-cases (ltb a.page_count ((new_brk - a.vm_start + page_size - 1) / page_size))) [
      | inl t ↦ by_memory k (rw t at e)
      | inr t ↦
          let same = some-injective _ _ (rw t at e) in
          (ap (λ x. x.vm_start) (sym same), ap (λ x. x.vm_end) (sym same))
    ]
  where
    large : Area
    large = record a {
      vm_end = new_brk;
      pages =
          a.pages
          ++ replicate ((new_brk - a.vm_start + page_size - 1) / page_size - a.page_count) none;
      page_count = (new_brk - a.vm_start + page_size - 1) / page_size;
    }

    by_memory :
        (k : Bool)
        → (if k then some large else none) ≡ some a'
        → (a'.vm_start ≡ a.vm_start) × (a'.vm_end ≡ new_brk)
    by_memory true e =
        let same = some-injective _ _ e in
        (ap (λ x. x.vm_start) (sym same), ap (λ x. x.vm_end) (sym same))
    by_memory false e = absurd (none-ne-some a' e)

extend_at-Moved :
    (mm : Mm) (new_brk i : ℕ) (a : Area) (k : Bool)
    → IsValid mm
    → mm.brk < new_brk
    → new_brk < 2 ^ 64
    → nth mm.vma_list i ≡ some a
    → a.vm_end ≡ mm.brk
    → All (λ b. meets mm.brk new_brk b ≡ false) mm.vma_list
    → Moved mm
        (extend_at mm new_brk i (extended a new_brk k)).0
        (extend_at mm new_brk i (extended a new_brk k)).1
unfolding extend_at
extend_at-Moved mm new_brk i a k v up fits e last free =
    elim (Option-cases (extended a new_brk k)) [
      | inl n ↦ rw n refl
      | inr (a', t) ↦
          let (start, stop) = extended-span a a' new_brk k t in
          let old = All-nth IsArea mm.vma_list i a v.areas e in
          rw t (
            refl,
            refl,
            replaced-IsValid (λ b. (meets mm.brk new_brk b ≡ false) × (b.vm_start < b.vm_end)) mm i
                new_brk a a' v e (omega (arith, old.0), omega arith)
                (All-zip _ _ mm.vma_list free
                  (All-map IsArea (λ b. b.vm_start < b.vm_end) mm.vma_list (λ b h. h.0) v.areas))
                (λ b q d. grown-Apart a a' b mm.brk new_brk last start stop q d),
          )
    ]

grow-Moved :
    (mm : Mm) (new_brk : ℕ) (k₁ k₂ : Bool)
    → IsValid mm
    → mm.brk < new_brk
    → new_brk < 2 ^ 64
    → Moved mm (grow mm new_brk k₁ k₂).0 (grow mm new_brk k₁ k₂).1
unfolding grow grow_from find_vma_intersection
grow-Moved mm new_brk k₁ k₂ v up fits = rw (lt→leb mm.brk new_brk up) (
    by_room (find_area (meets mm.brk new_brk) mm.vma_list)
      (find_area-FoundIn (meets mm.brk new_brk) mm.vma_list))
  where
    from :
        (r : Option (ℕ × Area)) (p : Area → Bool)
        → All (λ b. meets mm.brk new_brk b ≡ false) mm.vma_list
        → FoundIn p mm.vma_list r
        → Moved mm (grow_from mm new_brk k₁ k₂ r).0 (grow_from mm new_brk k₁ k₂ r).1
    from none p free f = new_heap-Moved mm new_brk k₁ k₂ v
    from (some (i, a)) p free (e, h) =
        elim (Bool-cases (not (a.vm_end == mm.brk) || not (is_heap a.vm_type))) [
          | inl t ↦ rw t (new_heap-Moved mm new_brk k₁ k₂ v)
          | inr t ↦ rw t (extend_at-Moved mm new_brk i a k₁ v up fits e (ground arith) free)
        ]

    result : Option (ℕ × Area) → Mm × Ret
    result r =
        if not (is_null r)
        then (mm, fail enomem)
        else grow_from mm new_brk k₁ k₂ (find_vma mm (add64 mm.brk (2 ^ 64 - 1)))

    by_room :
        (r : Option (ℕ × Area))
        → FoundIn (meets mm.brk new_brk) mm.vma_list r
        → Moved mm (result r).0 (result r).1
    by_room (some x) f = refl
    by_room none f =
        from (find_vma mm (add64 mm.brk (2 ^ 64 - 1))) (contains (add64 mm.brk (2 ^ 64 - 1))) f
          (find_vma-Found mm (add64 mm.brk (2 ^ 64 - 1)))

shrink_from-Moved :
    (mm : Mm) (new_brk : ℕ) (r : Option (ℕ × Area))
    → IsValid mm
    → new_brk < 2 ^ 64
    → FoundIn (contains new_brk) mm.vma_list r
    → Moved mm (shrink_from mm new_brk r).0 (shrink_from mm new_brk r).1
unfolding shrink_from shrunk
shrink_from-Moved mm new_brk none v fits f =
    (refl, refl, record { areas = v.areas; disjoint = v.disjoint; counted = v.counted })
shrink_from-Moved mm new_brk (some (i, a)) v fits (e, h) =
    elim (Bool-cases (ltb a.vm_start new_brk && is_heap a.vm_type)) [
      | inl t ↦ rw t (
        refl,
        refl,
        replaced-IsValid (λ b. Unit) mm i new_brk a (shrunk a new_brk mm.brk) v e
            (ground arith, fits) (All-map IsArea (λ b. Unit) mm.vma_list (λ b q. tt) v.areas)
            (λ b q d. shrunk-Apart a (shrunk a new_brk mm.brk) b refl (ground arith) d),
      )
      | inr t ↦
          rw t (refl, refl, record { areas = v.areas; disjoint = v.disjoint; counted = v.counted })
    ]

same_brk : (mm : Mm) → IsValid mm → Moved mm mm (ok mm.brk)
same_brk mm v = (refl, refl, v)

move_brk-Moved :
    (mm : Mm) (new_brk : ℕ) (k₁ k₂ : Bool)
    → IsValid mm
    → new_brk < 2 ^ 64
    → Moved mm (move_brk mm new_brk k₁ k₂).0 (move_brk mm new_brk k₁ k₂).1
unfolding move_brk
move_brk-Moved mm new_brk k₁ k₂ v fits = elim (Bool-cases (ltb new_brk mm.start_brk)) [
  | inl a ↦ rw a refl
  | inr a ↦ elim (Bool-cases (new_brk == mm.brk)) [
    | inl b ↦ rw (a, b) (same_brk mm v)
    | inr b ↦ elim (Bool-cases (ltb mm.brk new_brk)) [
      | inl c ↦ rw (a, b, c) (grow-Moved mm new_brk k₁ k₂ v (ground arith) fits)
      | inr c ↦
          rw (a, b, c)
            (shrink_from-Moved mm new_brk (find_vma mm new_brk) v fits (find_vma-Found mm new_brk))
    ]
  ]
]

-- `do_brk` of a valid address space either fails and changes nothing, or the break is where it says, the
-- start of the heap is unchanged, and the areas are still valid.
pub do_brk-Moved :
    (mm : Mm) (new_brk : ℕ) (k₁ k₂ : Bool)
    → IsValid mm
    → Moved mm (do_brk mm new_brk k₁ k₂).0 (do_brk mm new_brk k₁ k₂).1
unfolding do_brk
do_brk-Moved mm new_brk k₁ k₂ v = elim (Bool-cases (new_brk == 0)) [
  | inl t ↦ rw t (same_brk mm v)
  | inr t ↦ rw t (move_brk-Moved mm (roundup new_brk) k₁ k₂ v (omega arith))
]
