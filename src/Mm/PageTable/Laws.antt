-- ===== src/Mm/PageTable/Laws.antt =====
-- pgt_map_page against the translation that lookup_pa makes.
pub mod Words
pub mod Walk
use oscomp.Common.{
  ℕ, zero, suc, ◌+◌, ◌*◌, ◌/◌, ◌%◌, ◌^◌, ◌≤◌, ◌<◌, ◌==◌, leb, lt→leb, ==_iff, Bool, true, false,
  if◌then◌else◌, Bool-cases, bit_or, Option, none, some, ◌≡◌, ◌≢◌, refl, sym, ap, ◌∙◌, inl, inr,
  arith,
}
use oscomp.Mm.PageTable.{
  Entry, PageTable, walk, make_path, set_entry, max_va, pte_valid, pte_to_pa, new_pte, map_entry,
  map_walked, page_down, pgt_map_page, found_pa, lookup_pa,
}
use Words.{bit_or-zero, new_pte-valid, pte_to_pa-new_pte, same_walk-page}
use Walk.{valid_entry, translate, same_walk, Made, make_path-Made, translate-set_entry}

-- The address for a valid entry.
abbrev pub address : ℕ → Option ℕ → ℕ
address va none = 0
address va (some pte) = bit_or (pte_to_pa pte) (va % 4096)

found_pa-valid : (va : ℕ) (o : Option ℕ) → found_pa va o ≡ address va (valid_entry o)
found_pa-valid va none = refl
found_pa-valid va (some pte) = elim (Bool-cases (pte_valid pte)) [
  | inl e ↦ rw e refl
  | inr e ↦ rw e refl
]

pub lookup_pa-translate :
    (p : PageTable) (va : ℕ) → va < max_va → lookup_pa p va ≡ address va (translate 2 p.root va)
unfolding lookup_pa translate
lookup_pa-translate p va lt = rw (lt→leb va max_va lt) (found_pa-valid va (walk 2 p.root va))

-- The same translation of every address.
abbrev pub Agree : PageTable → PageTable → Type 0
Agree p p' = (j : ℕ) → j < max_va → lookup_pa p' j ≡ lookup_pa p j

-- A valid entry maps the page, to another frame.
abbrev pub Elsewhere : PageTable → ℕ → ℕ → Type 0
Elsewhere p va pa = (pte : ℕ) × (translate 2 p.root va ≡ some pte) × (pte_to_pa pte ≢ pa)

-- What the mapping of the frame of `pa` at the page of `va` gives.
abbrev pub Mapped : PageTable → ℕ → ℕ → ℕ → Option (PageTable × Bool × ℕ) → Type 0
Mapped p va pa budget none = budget < 2
Mapped p va pa budget (some (p', true, rest)) =
    (j : ℕ)
    → j < max_va
    → lookup_pa p' j
      ≡ (if va / 4096 == j / 4096 then bit_or (page_down pa) (j % 4096) else lookup_pa p j)
Mapped p va pa budget (some (p', false, rest)) =
    Agree p p'
    × (lookup_pa p (page_down va) ≢ page_down pa)
    × Elsewhere p (page_down va) (page_down pa)

address-new_pte :
    (b : Bool) (j pa perm : ℕ) (o : Option ℕ)
    → pte_to_pa (new_pte pa perm) ≡ pa
    → address j (if b then valid_entry (some (new_pte pa perm)) else o)
      ≡ (if b then bit_or pa (j % 4096) else address j o)
address-new_pte true j pa perm o e = rw (new_pte-valid pa perm, e) refl
address-new_pte false j pa perm o e = refl

module _ (p : PageTable) (va pa perm : ℕ) (in_range : va < max_va)
    (kept : pte_to_pa (new_pte pa perm) ≡ pa) where
  same_walk-2 : (j : ℕ) → j < max_va → same_walk 2 va j ≡ (va / 4096 == j / 4096)
  unfolding same_walk
  same_walk-2 j lt = same_walk-page va j (omega arith) (omega arith)

  set_lookup :
      (t : ℕ → Entry 2) (m old j : ℕ)
      → j < max_va
      → ((i : ℕ) → translate 2 t i ≡ translate 2 p.root i)
      → walk 2 t va ≡ some old
      → lookup_pa (record p { root = set_entry 2 t va (new_pte pa perm); mapped_pages = m }) j
        ≡ (if va / 4096 == j / 4096 then bit_or pa (j % 4096) else lookup_pa p j)
  set_lookup t m old j lt same w =
      rw (lookup_pa-translate p j lt, ← same j, ← same_walk-2 j lt)
        (lookup_pa-translate
            (record p { root = set_entry 2 t va (new_pte pa perm); mapped_pages = m }) j lt
          ∙ ap (address j) (translate-set_entry 2 t va (new_pte pa perm) old j w)
          ∙ address-new_pte (same_walk 2 va j) j pa perm (translate 2 t j) kept)

  -- The results of the last step, for an aligned address.
  abbrev Entered : PageTable × Bool → Type 0
  Entered (p', true) =
      (j : ℕ)
      → j < max_va
      → lookup_pa p' j ≡ (if va / 4096 == j / 4096 then bit_or pa (j % 4096) else lookup_pa p j)
  Entered (p', false) = Agree p p' × (lookup_pa p va ≢ pa) × Elsewhere p va pa

  differs : (pte : ℕ) → (pte_to_pa pte == pa) ≡ false → pte_to_pa pte ≢ pa
  differs pte ne e = ground arith

  lookup-used :
      (t : ℕ → Entry 2) (pte : ℕ)
      → va % 4096 ≡ 0
      → ((i : ℕ) → translate 2 t i ≡ translate 2 p.root i)
      → walk 2 t va ≡ some pte
      → pte_valid pte ≡ true
      → lookup_pa p va ≡ pte_to_pa pte
  unfolding translate
  lookup-used t pte al same w used =
      lookup_pa-translate p va in_range
      ∙ ap (address va) (sym (same va) ∙ ap valid_entry w)
      ∙ rw (used, al) (bit_or-zero (pte_to_pa pte))

  map_entry-Entered :
      (t : ℕ → Entry 2) (pte : ℕ)
      → va % 4096 ≡ 0
      → ((i : ℕ) → translate 2 t i ≡ translate 2 p.root i)
      → walk 2 t va ≡ some pte
      → Entered (map_entry p t va pa perm (some pte))
  unfolding translate
  map_entry-Entered t pte al same w = elim (Bool-cases (pte_valid pte)) [
    | inr free ↦ rw free (λ j lt. set_lookup t ((p.mapped_pages + 1) % 2 ^ 32) pte j lt same w)
    | inl used ↦ elim (Bool-cases (pte_to_pa pte == pa)) [
      | inl again ↦ rw (used, again) (λ j lt. set_lookup t p.mapped_pages pte j lt same w)
      | inr other ↦
          rw (used, other)
            (
              (λ j lt.
                  lookup_pa-translate (record p { root = t }) j lt
                  ∙ ap (address j) (same j)
                  ∙ sym (lookup_pa-translate p j lt)),
              λ e. differs pte other (sym (lookup-used t pte al same w used) ∙ e),
              (pte, sym (same va) ∙ ap valid_entry w ∙ rw used refl, differs pte other),
            )
    ]
  ]

down_same : (a : ℕ) → page_down a / 4096 ≡ a / 4096
down_same a = omega arith

Entered-Mapped :
    (p : PageTable) (va pa rest budget : ℕ) (r : PageTable × Bool)
    → (in_range : page_down va < max_va)
    → (perm : ℕ) (kept : pte_to_pa (new_pte (page_down pa) perm) ≡ page_down pa)
    → Entered p (page_down va) (page_down pa) perm in_range kept r
    → Mapped p va pa budget (some (r.0, r.1, rest))
Entered-Mapped p va pa rest budget (p', true) in_range perm kept e =
    λ j lt. rw (← down_same va) (e j lt)
Entered-Mapped p va pa rest budget (p', false) in_range perm kept e = e

walked-Mapped :
    (p : PageTable) (va pa perm budget : ℕ) (r : Option ((ℕ → Entry 2) × ℕ))
    → page_down va < max_va
    → pte_to_pa (new_pte (page_down pa) perm) ≡ page_down pa
    → Made 2 p.root (page_down va) budget r
    → Mapped p va pa budget (map_walked p (page_down va) (page_down pa) perm r)
walked-Mapped p va pa perm budget none in_range kept m = m
walked-Mapped p va pa perm budget (some (t, rest)) in_range kept (same, (pte, w)) =
    let found =
      map_entry-Entered p (page_down va) (page_down pa) perm in_range kept t pte (omega arith) same
        w in
    rw w (
      Entered-Mapped p va pa rest budget
        (map_entry p t (page_down va) (page_down pa) perm (some pte)) in_range perm kept found)

-- For an address below MAXVA, a frame below 2 ^ 56 and flags of ten bits, pgt_map_page lets lookup_pa find
-- the frame at every address of the page and what it found before at all others; or it fails, only where
-- a valid entry maps the page to another frame, and changes no translation. It reads an unallocated page only if
-- fewer than two pages can be allocated.
pub pgt_map_page-Mapped :
    (p : PageTable) (va pa perm budget : ℕ)
    → va < max_va
    → pa < 2 ^ 56
    → perm < 2 ^ 10
    → Mapped p va pa budget (pgt_map_page p va pa perm budget)
unfolding pgt_map_page
pgt_map_page-Mapped p va pa perm budget in_range fits small =
    let low : page_down va < max_va = omega arith in
    rw (lt→leb (page_down va) max_va low) (
      walked-Mapped p va pa perm budget (make_path 2 p.root (page_down va) budget) low
        (pte_to_pa-new_pte (page_down pa) perm (omega arith) small ∙ omega arith)
        (make_path-Made 2 p.root (page_down va) budget))
