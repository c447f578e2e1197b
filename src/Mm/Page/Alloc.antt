-- ===== src/Mm/Page/Alloc.antt =====
-- What alloc_page takes from the list of free pages, and what put_page gives back.
use oscomp.Common.{
  ℕ, ◌+◌, ◌-◌, ◌*◌, ◌/◌, ◌%◌, ◌^◌, ◌≤◌, ◌<◌, ◌==◌, ==_ne, ==_self, lt→leb, le→ltb, false,
  if◌then◌else◌, Option, none, some, List, [], ◌∷◌, length, ◌≡◌, ◌≢◌, refl, sym, inl, inr,
  Bool-cases, lt→ltb, arith,
}
use native.Mathlib.Nat.{div-lt_iff_lt-mul}
use oscomp.Mm.Space.Areas.{All}
use oscomp.Mm.Page.{
  Page, Pool, init_page_struct, with_page, is_invalid, take_first, get_free_page_addr,
  put_free_page, alloc_page, alloc_taken, addr_to_page, get_pfn, pfn_to_page, physical, put_page,
}

-- A frame of the memory.
pub record IsFrame (base size a : ℕ) : Type 0 where
  pub aligned : a % 4096 ≡ 0
  pub above : base ≤ a
  pub below : a < base + size

abbrev pub Distinct : List ℕ → Type 0
Distinct [] = Unit
Distinct (a ∷ l) = All (λ b. b ≢ a) l × Distinct l

-- The list of free pages is `l`: frames, each once, and counted.
pub record IsFree (s : Pool) (l : List ℕ) : Type 0 where
  pub linked : s.free ≡ some l
  pub frames : All (IsFrame s.base s.size) l
  pub distinct : Distinct l
  pub counted : s.counter ≡ length l
  pub bounded : length l < 2 ^ 64
  pub covered : s.size ≤ s.total * 4096
  pub base_pos : 0 < s.base

-- A frame passes the test.
pub valid_frame : (s : Pool) (a : ℕ) → IsFrame s.base s.size a → is_invalid s a ≡ false
valid_frame s a f = ground arith

module _ (lookup_pa : ℕ → ℕ) where
  -- The page of a frame.
  frame-page :
      (s : Pool) (a : ℕ)
      → IsFrame s.base s.size a
      → s.size ≤ s.total * 4096
      → addr_to_page lookup_pa s a ≡ some ((a - s.base) / 4096)
  unfolding addr_to_page get_pfn pfn_to_page
  frame-page s a f c =
      let stays : physical lookup_pa s a ≡ a = rw (lt→leb a (s.base + s.size) f.below) refl in
      let fits : (a - s.base) / 4096 < s.total =
        (div-lt_iff_lt-mul {k = 4096} {x = a - s.base} {y = s.total} (omega arith)).1
          (omega (arith, f.above, f.below)) in
      rw
        (
          stays,
          valid_frame s a f,
          le→ltb a s.base f.above,
          stays,
          lt→leb ((a - s.base) / 4096) s.total fits,
        )
        refl

  -- A structure with one reference, and with nothing left of what the page was used for.
  pub record IsFresh (p : Page) (a : ℕ) : Type 0 where
    pub one_reference : p.refcount ≡ 1
    pub address : p.paddr ≡ a
    pub no_flags : p.flags ≡ 0
    pub no_mapping : p.mapping ≡ none
    pub no_index : p.index ≡ 0
    pub unlocked : p.locked ≡ false

  -- The first free page is taken: its structure is fresh with one reference, and the others stay.
  -- From an empty list the head itself is taken.
  abbrev pub Allocated : Pool → List ℕ → Option (Pool × Option ℕ) → Type 0
  Allocated s [] r = r ≡ none
  Allocated s (a ∷ l) r =
      (s' : Pool) × (r ≡ some (s', some ((a - s.base) / 4096)))
      × IsFree s' l
      × IsFresh (s'.pages ((a - s.base) / 4096)) a
      × ((j : ℕ) → j ≢ (a - s.base) / 4096 → s'.pages j ≡ s.pages j)
      × All (λ b. b ≢ a) l

  allocated-IsFree :
      (s : Pool) (a : ℕ) (l : List ℕ) (pages : ℕ → Page)
      → IsFree s (a ∷ l)
      → IsFree
          (record s { free = some l; counter = (s.counter + (2 ^ 64 - 1)) % 2 ^ 64; pages = pages })
          l
  allocated-IsFree s a l pages v = record {
    linked = refl;
    frames = v.frames.1;
    distinct = v.distinct.1;
    counted = omega (arith, v.counted, v.bounded);
    bounded = omega (arith, v.bounded);
    covered = v.covered;
    base_pos = v.base_pos;
  }

  take-Allocated :
      (s : Pool) (l : List ℕ)
      → IsFree s l
      → Allocated s l (alloc_taken lookup_pa (take_first s (some l)))
  take-Allocated s [] v = refl
  take-Allocated s (a ∷ l) v =
      let f = v.frames.0 in
      let pfn = (a - s.base) / 4096 in
      let s1 = record s { free = some l; counter = (s.counter + (2 ^ 64 - 1)) % 2 ^ 64 } in
      let p = record (init_page_struct (s.pages pfn)) { refcount = 1; paddr = a } in
      (
        record s1 { pages = with_page s.pages pfn p },
        rw (==_ne a 0 (λ e. omega (arith, f.above, v.base_pos)), frame-page s1 a f v.covered) refl,
        allocated-IsFree s a l (with_page s.pages pfn p) v,
        rw (==_self pfn) (record {
          one_reference = refl;
          address = refl;
          no_flags = refl;
          no_mapping = refl;
          no_index = refl;
          unlocked = refl;
        }),
        λ j ne. rw (==_ne pfn j (λ e. ne (sym e))) refl,
        v.distinct.0,
      )

  -- Where the free list is a list of frames, each once, and counted, alloc_page takes the first of
  -- them. Its structure has one reference, the address of the frame, and no flags, mapping, index or
  -- lock; the other structures are as they were; the rest stays free, and does not hold the page.
  -- Where none is free, it takes the head of the list for a page.
  pub alloc_page-Allocated :
      (s : Pool) (l : List ℕ) → IsFree s l → Allocated s l (alloc_page lookup_pa s)
  unfolding alloc_page get_free_page_addr
  alloc_page-Allocated s l v = rw (v.linked) (take-Allocated s l v)

-- put_page of a page with references changes nothing, and of one without it panics, if the memory
-- does not begin at 0: no page is freed.
pub put_page-none :
    (s : Pool) (pfn : ℕ)
    → 0 < s.base
    → put_page s (some pfn) ≡ (if (s.pages pfn).refcount == 0 then none else some s)
unfolding put_page put_free_page
put_page-none s pfn pos = elim (Bool-cases ((s.pages pfn).refcount == 0)) [
  | inl e ↦ rw (e, lt→ltb 0 s.base pos) refl
  | inr e ↦ rw e refl
]
