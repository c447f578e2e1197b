-- ===== src/Mm/Space/Setup.antt =====
-- Creation of an area: `vm_area_setup` and what it calls.
use oscomp.Common.{
  ℕ, ◌+◌, ◌==◌, ◌<◌, Bool, true, false, not, Option, none, some, List, ◌∷◌, if◌then◌else◌, ◌≡◌,
  refl, inl, inr, arith, Bool-cases, ltb, leb, replicate, lt→leb,
}
use oscomp.Common.Errno.{Ret, ok, fail, enomem}
use oscomp.Mm.Space.{
  Area, Mm, VmaType, find_area, vma_anonymous, vma_private, vma_shared, vma_file, vma_stack,
  vma_heap, vma_text, vma_data, vma_bss, vma_vdso, find_vma_intersection, meets, add64, is_null,
  vma_init, vma_alloc_page_array, insert_vm_struct, with_segment, inserted, with_pages,
  vm_area_setup,
}
use oscomp.Mm.Space.Areas.{
  All-map, FoundIn, nth, All-nth, find_area-FoundIn, Apart, IsArea, IsValid,
}

-- The new area spans the range; every area that was there is still there, behind it.
pub record Added (mm mm' : Mm) (start stop : ℕ) (a : Area) : Type 0 where
  pub front : mm'.vma_list ≡ a ∷ mm.vma_list
  pub span : (a.vm_start ≡ start) × (a.vm_end ≡ stop)
  pub valid : IsValid mm'
  pub break_kept : (mm'.brk ≡ mm.brk) × (mm'.start_brk ≡ mm.start_brk)

-- What `vm_area_setup` leaves: nothing is changed if it returns null.
abbrev pub SetUp : Mm → ℕ → ℕ → Mm → Option Area → Type 0
SetUp mm start stop mm' none = mm' ≡ mm
SetUp mm start stop mm' (some a) = Added mm mm' start stop a

no_meets-Apart : (a b : Area) → meets a.vm_start a.vm_end b ≡ false → Apart a b
no_meets-Apart a b e = elim (Bool-cases (ltb a.vm_start b.vm_end)) [
  | inl t ↦ inl (ground arith)
  | inr t ↦ inr (ground arith)
]

with_segment-kept :
    (mm : Mm) (t : VmaType) (start stop : ℕ)
    → ((with_segment mm t start stop).vma_list ≡ mm.vma_list)
      × ((with_segment mm t start stop).map_count ≡ mm.map_count)
      × ((with_segment mm t start stop).brk ≡ mm.brk)
      × ((with_segment mm t start stop).start_brk ≡ mm.start_brk)
unfolding with_segment
with_segment-kept mm vma_anonymous start stop = (refl, refl, refl, refl)
with_segment-kept mm vma_private start stop = (refl, refl, refl, refl)
with_segment-kept mm vma_shared start stop = (refl, refl, refl, refl)
with_segment-kept mm vma_file start stop = (refl, refl, refl, refl)
with_segment-kept mm vma_stack start stop = (refl, refl, refl, refl)
with_segment-kept mm vma_heap start stop = (refl, refl, refl, refl)
with_segment-kept mm vma_text start stop = (refl, refl, refl, refl)
with_segment-kept mm vma_data start stop = (refl, refl, refl, refl)
with_segment-kept mm vma_bss start stop = (refl, refl, refl, refl)
with_segment-kept mm vma_vdso start stop = (refl, refl, refl, refl)

inserted-SetUp :
    (mm : Mm) (a : Area) (start stop : ℕ)
    → IsValid mm
    → IsArea a
    → a.vm_start ≡ start
    → a.vm_end ≡ stop
    → SetUp mm start stop
        (inserted mm a (insert_vm_struct mm a)).0
        (inserted mm a (insert_vm_struct mm a)).1
unfolding inserted insert_vm_struct find_vma_intersection
inserted-SetUp mm a start stop v h e f = rw (lt→leb a.vm_start a.vm_end h.0) (
    found (find_area (meets a.vm_start a.vm_end) mm.vma_list)
      (find_area-FoundIn (meets a.vm_start a.vm_end) mm.vma_list))
  where
    after : Option (ℕ × Area) → Mm × Ret
    after r =
        if not (is_null r)
        then (mm, fail enomem)
        else (record mm { vma_list = a ∷ mm.vma_list; map_count = mm.map_count + 1 }, ok 0)

    found :
        (r : Option (ℕ × Area))
        → FoundIn (meets a.vm_start a.vm_end) mm.vma_list r
        → SetUp mm start stop (inserted mm a (after r)).0 (inserted mm a (after r)).1
    found (some (i, b)) q = refl
    found none q =
        let mm' = record mm { vma_list = a ∷ mm.vma_list; map_count = mm.map_count + 1 } in
        let (list, count, end, start) =
          with_segment-kept (record mm { vma_list = a ∷ mm.vma_list; map_count = mm.map_count + 1 })
            a.vm_type a.vm_start a.vm_end in
        record {
          front = list;
          span = (e, f);
          valid = record {
            areas = rw list (h, v.areas);
            disjoint = rw list (All-map _ (Apart a) mm.vma_list (no_meets-Apart a) q, v.disjoint);
            counted = rw (list, count, v.counted) (omega arith);
          };
          break_kept = (end, start);
        }

-- With `with_pages` the array of pages is there, or nothing is changed.
with_pages-SetUp :
    (mm : Mm) (a : Area) (start stop : ℕ) (k : Bool)
    → IsValid mm
    → IsArea a
    → a.vm_start ≡ start
    → a.vm_end ≡ stop
    → SetUp mm start stop
        (with_pages mm (vma_alloc_page_array a k)).0
        (with_pages mm (vma_alloc_page_array a k)).1
unfolding with_pages vma_alloc_page_array
with_pages-SetUp mm a start stop k v h e f = elim (Bool-cases (a.page_count == 0)) [
  | inl z ↦ rw z (inserted-SetUp mm a start stop v h e f)
  | inr z ↦ rw z (by_memory k)
]
  where
    pages : Area
    pages = record a { pages = replicate a.page_count none }

    by_memory :
        (k : Bool)
        → SetUp mm start stop
            (with_pages mm (if k then (pages, ok 0) else (a, fail enomem))).0
            (with_pages mm (if k then (pages, ok 0) else (a, fail enomem))).1
    by_memory true = inserted-SetUp mm pages start stop v h e f
    by_memory false = refl

-- In a valid address space `vm_area_setup` adds one area that spans the range it is given, without a
-- wrap, and keeps the areas apart; or it returns null and changes nothing.
pub vm_area_setup-SetUp :
    (mm : Mm) (addr len : ℕ) (type : VmaType) (prot flags : ℕ) (k₁ k₂ : Bool)
    → IsValid mm
    → SetUp mm addr
        (add64 addr len)
        (vm_area_setup mm addr len type prot flags k₁ k₂).0
        (vm_area_setup mm addr len type prot flags k₁ k₂).1
unfolding vm_area_setup
vm_area_setup-SetUp mm addr len type prot flags k₁ k₂ v =
    elim (Bool-cases (leb (add64 addr len) addr)) [
      | inl t ↦ rw t refl
      | inr t ↦ rw t (by_memory k₁ (ground arith))
    ]
  where
    by_memory :
        (k : Bool)
        → addr < add64 addr len
        → SetUp mm addr
            (add64 addr len)
            (if not k
              then (mm, none)
              else with_pages mm
                  (vma_alloc_page_array (vma_init addr (add64 addr len) type prot flags) k₂)).0
            (if not k
              then (mm, none)
              else with_pages mm
                  (vma_alloc_page_array (vma_init addr (add64 addr len) type prot flags) k₂)).1
    by_memory false h = refl
    by_memory true h =
        with_pages-SetUp mm (vma_init addr (add64 addr len) type prot flags) addr (add64 addr len)
          k₂ v (h, omega arith) refl refl

pub found_some :
    (p : Area → Bool) (xs : List Area) (i : ℕ) (b : Area) (r : Option (ℕ × Area))
    → nth xs i ≡ some b
    → p b ≡ true
    → FoundIn p xs r
    → is_null r ≡ false
found_some p xs i b none e h f =
    let no : p b ≡ false = All-nth (λ a. p a ≡ false) xs i b f e in ground (arith, no, h)
found_some p xs i b (some _) e h f = refl

inserted_taken :
    (mm : Mm) (a : Area)
    → leb a.vm_end a.vm_start ≡ false
    → is_null (find_area (meets a.vm_start a.vm_end) mm.vma_list) ≡ false
    → inserted mm a (insert_vm_struct mm a) ≡ (mm, none)
unfolding inserted insert_vm_struct find_vma_intersection
inserted_taken mm a e h = rw (e, h) refl

with_pages_taken :
    (mm : Mm) (a : Area) (k : Bool)
    → leb a.vm_end a.vm_start ≡ false
    → is_null (find_area (meets a.vm_start a.vm_end) mm.vma_list) ≡ false
    → with_pages mm (vma_alloc_page_array a k) ≡ (mm, none)
unfolding with_pages vma_alloc_page_array
with_pages_taken mm a k e h = elim (Bool-cases (a.page_count == 0)) [
  | inl z ↦ rw z (inserted_taken mm a e h)
  | inr z ↦ rw z (by_memory k)
]
  where
    by_memory :
        (k : Bool)
        → with_pages mm (
            if k
            then (record a { pages = replicate a.page_count none }, ok 0)
            else (a, fail enomem))
          ≡ (mm, none)
    by_memory true = inserted_taken mm (record a { pages = replicate a.page_count none }) e h
    by_memory false = refl

-- `vm_area_setup` returns null and changes nothing if some area meets the range.
pub vm_area_setup_taken :
    (mm : Mm) (addr len : ℕ) (type : VmaType) (prot flags : ℕ) (k₁ k₂ : Bool) (i : ℕ) (b : Area)
    → nth mm.vma_list i ≡ some b
    → meets addr (add64 addr len) b ≡ true
    → vm_area_setup mm addr len type prot flags k₁ k₂ ≡ (mm, none)
unfolding vm_area_setup
vm_area_setup_taken mm addr len type prot flags k₁ k₂ i b e h =
    let hit =
      found_some (meets addr (add64 addr len)) mm.vma_list i b _ e h
        (find_area-FoundIn (meets addr (add64 addr len)) mm.vma_list) in
    elim (Bool-cases (leb (add64 addr len) addr)) [
      | inl t ↦ rw t refl
      | inr t ↦ rw t (by_memory k₁ t hit)
    ]
  where
    by_memory :
        (k : Bool)
        → leb (add64 addr len) addr ≡ false
        → is_null (find_area (meets addr (add64 addr len)) mm.vma_list) ≡ false
        → (if not k
            then (mm, none)
            else with_pages mm
                (vma_alloc_page_array (vma_init addr (add64 addr len) type prot flags) k₂))
          ≡ (mm, none)
    by_memory false t h = refl
    by_memory true t h = with_pages_taken mm (vma_init addr (add64 addr len) type prot flags) k₂ t h
