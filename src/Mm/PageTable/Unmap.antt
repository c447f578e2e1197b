-- ===== src/Mm/PageTable/Unmap.antt =====
-- pgt_unmap against the translation that lookup_pa makes.
use oscomp.Common.{
  ℕ, zero, suc, ◌+◌, ◌-◌, ◌*◌, ◌/◌, ◌%◌, ◌^◌, ◌≤◌, ◌<◌, ◌==◌, leb, ltb, ◌&&◌, ◌||◌, Bool, true,
  false, if◌then◌else◌, Bool-cases, Option, none, some, List, [], ◌≡◌, refl, sym, ap, ◌∙◌, inl, inr,
  arith,
}
use oscomp.Mm.PageTable.{
  PageTable, walk, set_entry, max_va, pte_valid, unmap_entry, unmap_pages, pgt_unmap, page_down,
  page_up, lookup_pa, done_all,
}
use oscomp.Mm.PageTable.Laws.{address, lookup_pa-translate}
use oscomp.Mm.PageTable.Laws.Words.{same_walk-page}
use oscomp.Mm.PageTable.Laws.Walk.{
  valid_entry, translate, same_walk, translate-set_entry, walk-same_walk,
}

module _ (va : ℕ) (in_range : va < max_va) where
  same_page : (j : ℕ) → j < max_va → same_walk 2 va j ≡ (va / 4096 == j / 4096)
  unfolding same_walk
  same_page j lt = same_walk-page va j (omega arith) (omega arith)

  -- No translation in the page, if the walk of its address finds none.
  nothing_here :
      (p : PageTable) (j : ℕ)
      → j < max_va
      → valid_entry (walk 2 p.root va) ≡ none
      → lookup_pa p j ≡ (if va / 4096 == j / 4096 then 0 else lookup_pa p j)
  unfolding translate
  nothing_here p j lt e = elim (Bool-cases (va / 4096 == j / 4096)) [
    | inl here ↦ rw here (
        lookup_pa-translate p j lt
        ∙ ap (λ w. address j (valid_entry w))
            (sym (walk-same_walk 2 p.root va j (same_page j lt ∙ here)))
        ∙ ap (address j) e)
    | inr there ↦ rw there refl
  ]

  cleared :
      (b : Bool) (j : ℕ) (o : Option ℕ)
      → address j (if b then valid_entry (some 0) else o) ≡ (if b then 0 else address j o)
  cleared true j o = refl
  cleared false j o = refl

  unmap_entry-lookup_pa :
      (p : PageTable) (free_phys : Bool) (found : Option ℕ) (j : ℕ)
      → j < max_va
      → walk 2 p.root va ≡ found
      → lookup_pa (unmap_entry p va free_phys found).0 j
        ≡ (if va / 4096 == j / 4096 then 0 else lookup_pa p j)
  unmap_entry-lookup_pa p free_phys none j lt w = nothing_here p j lt (ap valid_entry w)
  unmap_entry-lookup_pa p free_phys (some pte) j lt w = elim (Bool-cases (pte_valid pte)) [
    | inl used ↦
        let q = record p {
          root = set_entry 2 p.root va 0;
          mapped_pages = (p.mapped_pages + (2 ^ 32 - 1)) % 2 ^ 32;
        } in
        rw (used, lookup_pa-translate p j lt, ← same_page j lt)
          (lookup_pa-translate q j lt
            ∙ ap (address j) (translate-set_entry 2 p.root va 0 pte j w)
            ∙ cleared (same_walk 2 va j) j (translate 2 p.root j))
    | inr free ↦ rw free (nothing_here p j lt (ap valid_entry w ∙ rw free refl))
  ]

unmap_pages-lookup_pa :
    (rounds : ℕ) (p : PageTable) (va : ℕ) (free_phys : Bool) (j : ℕ)
    → va % 4096 ≡ 0
    → va + rounds * 4096 ≤ max_va
    → j < max_va
    → lookup_pa (unmap_pages rounds p va free_phys).0 j
      ≡ (if leb va j && ltb j (va + rounds * 4096) then 0 else lookup_pa p j)
unfolding unmap_pages
unmap_pages-lookup_pa zero p va free_phys j al fits lt = ground arith
unmap_pages-lookup_pa (suc rounds) p va free_phys j al fits lt =
    let q = (unmap_entry p va free_phys (walk 2 p.root va)).0 in
    unmap_pages-lookup_pa rounds q (va + 4096) free_phys j (omega arith) (omega arith) lt
    ∙ rw (unmap_entry-lookup_pa va (omega arith) p free_phys (walk 2 p.root va) j lt refl)
        (ground arith)

-- What a success leaves: nothing in the range of pages, and all else. A failure is the end of the
-- addresses, and leaves the table.
abbrev pub Unmapped : PageTable → ℕ → ℕ → PageTable × Bool × List ℕ → Type 0
Unmapped p start end (p', true, frames) =
    (j : ℕ) → j < max_va → lookup_pa p' j ≡ (if leb start j && ltb j end then 0 else lookup_pa p j)
Unmapped p start end (p', false, frames) = (p' ≡ p) × (max_va ≤ end)

guarded :
    (p : PageTable) (start end : ℕ) (free_phys : Bool)
    → start % 4096 ≡ 0
    → end % 4096 ≡ 0
    → start ≤ end
    → Unmapped p start end (
        if leb max_va start || ltb max_va end || ltb end start
        then (p, false, [])
        else done_all (unmap_pages ((end - start) / 4096) p start free_phys))
guarded p start end free_phys al al' ordered =
    elim (Bool-cases (leb max_va start || ltb max_va end || ltb end start)) [
      | inl out ↦ rw out (refl, ground arith)
      | inr within ↦
          let rounds = (end - start) / 4096 in
          let bounded : end ≤ max_va = ground arith in
          let whole : start + rounds * 4096 ≡ end = omega arith in
          rw within (λ j lt.
            unmap_pages-lookup_pa rounds p start free_phys j al (rw whole bounded) lt
            ∙ rw whole refl)
    ]

word_sum : (va size : ℕ) → va + size + 4095 < 2 ^ 64 → (va + size) % 2 ^ 64 ≡ va + size
word_sum va size fits = omega arith

page_up-aligned : (a : ℕ) → page_up a % 4096 ≡ 0
page_up-aligned a = omega arith

ordered_pages : (va size : ℕ) → va + size + 4095 < 2 ^ 64 → page_down va ≤ page_up (va + size)
ordered_pages va size fits = omega arith

-- For a range whose end does not wrap around, pgt_unmap ends every translation from the page of the
-- first address to the page of the last, and changes no other; or the pages reach MAXVA, it fails,
-- and leaves the table.
pub pgt_unmap-Unmapped :
    (p : PageTable) (va size : ℕ) (free_phys : Bool)
    → va + size + 4095 < 2 ^ 64
    → Unmapped p (page_down va) (page_up (va + size)) (pgt_unmap p va size free_phys)
unfolding pgt_unmap
pgt_unmap-Unmapped p va size free_phys fits = rw (word_sum va size fits) (
    guarded p (page_down va) (page_up (va + size)) free_phys (omega arith)
      (page_up-aligned (va + size)) (ordered_pages va size fits))
