-- ===== src/Mm/PageTable.antt =====
-- The page tables of kernel/mm/pagetable.c, as the trees that their entries span.
use oscomp.Common.{
  ℕ, zero, suc, ◌+◌, ◌-◌, ◌*◌, ◌/◌, ◌%◌, ◌^◌, ◌==◌, leb, ltb, not, ◌||◌, List, [], ◌∷◌, ◌++◌,
  bit_and, bit_or, Bool, true, false, if◌then◌else◌, Option, none, some,
}
pub mod Laws
pub mod Unmap
mod Tests

-- An entry with `k` levels of tables below it: at the bottom a word of 64 bits, above it a table, or
-- none where PTE_V is clear.
abbrev pub Entry : ℕ → Type 0
Entry zero = ℕ
Entry (suc k) = Option (ℕ → Entry k)

-- The root and the count of mapped pages.
pub record PageTable : Type 0 where
  pub root : ℕ → Entry 2
  pub mapped_pages : ℕ

-- PX(level, va)
pub px : ℕ → ℕ → ℕ
px level va = va / 2 ^ (12 + 9 * level) % 512

abbrev pub max_va : ℕ
max_va = 2 ^ 38

abbrev pub pte_valid : ℕ → Bool
pte_valid pte = not (bit_and pte 1 == 0)

pub pa_to_ppn : ℕ → ℕ
pa_to_ppn pa = pa / 2 ^ 12 * 2 ^ 10 % 2 ^ 64

pub pte_to_pa : ℕ → ℕ
pte_to_pa pte = pte / 2 ^ 10 * 2 ^ 12 % 2 ^ 64

abbrev pub with_entry : {X : Type 0} → (ℕ → X) → ℕ → X → ℕ → X
with_entry t i e j = if i == j then e else t j

abbrev pub zero_table : (k : ℕ) → ℕ → Entry k
zero_table zero i = 0
zero_table (suc k) i = none

-- page_walk without allocation: the entry at the bottom.
pub walk : (k : ℕ) → (ℕ → Entry k) → ℕ → Option ℕ
unfolding px
walk zero t va = some (t (px 0 va))
walk (suc k) t va = elim (t (px (suc k) va)) [ none ↦ none | some u ↦ walk k u va ]

abbrev pub linked : {X : Type 0} → (ℕ → Option X) → ℕ → Option (X × ℕ) → Option ((ℕ → Option X) × ℕ)
linked t i none = none
linked t i (some (u, budget)) = some (with_entry t i (some u), budget)

-- One level of page_walk with allocation, where `budget` allocations succeed: the result none is
-- the read of the address of a page that was not allocated.
abbrev pub enter :
    (k : ℕ)
    → ((ℕ → Entry k) → ℕ → Option ((ℕ → Entry k) × ℕ))
    → (ℕ → Entry (suc k))
    → ℕ
    → Entry (suc k)
    → ℕ
    → Option ((ℕ → Entry (suc k)) × ℕ)
enter k next t i none zero = none
enter k next t i none (suc budget) = linked t i (next (zero_table k) budget)
enter k next t i (some u) budget = linked t i (next u budget)

pub make_path : (k : ℕ) → (ℕ → Entry k) → ℕ → ℕ → Option ((ℕ → Entry k) × ℕ)
unfolding px
make_path zero t va budget = some (t, budget)
make_path (suc k) t va budget =
    enter k (λ u rest. make_path k u va rest) t (px (suc k) va) (t (px (suc k) va)) budget

-- `*pte = e`, through the entry that the walk has found.
pub set_entry : (k : ℕ) → (ℕ → Entry k) → ℕ → ℕ → ℕ → Entry k
unfolding px
set_entry zero t va e = with_entry t (px 0 va) e
set_entry (suc k) t va e =
    with_entry t (px (suc k) va)
      (elim (t (px (suc k) va)) [ none ↦ none | some u ↦ some (set_entry k u va e) ])

abbrev pub new_pte : ℕ → ℕ → ℕ
new_pte pa perm = bit_or (bit_or (pa_to_ppn pa) perm) 1

-- The result false is -1.
abbrev pub map_entry : PageTable → (ℕ → Entry 2) → ℕ → ℕ → ℕ → Option ℕ → PageTable × Bool
map_entry p t va pa perm none = (record p { root = t }, false)
map_entry p t va pa perm (some pte) =
    if pte_valid pte
    then (if pte_to_pa pte == pa
        then (record p { root = set_entry 2 t va (new_pte pa perm) }, true)
        else (record p { root = t }, false))
    else (
      record p {
        root = set_entry 2 t va (new_pte pa perm);
        mapped_pages = (p.mapped_pages + 1) % 2 ^ 32;
      },
      true,
    )

abbrev pub map_walked :
    PageTable → ℕ → ℕ → ℕ → Option ((ℕ → Entry 2) × ℕ) → Option (PageTable × Bool × ℕ)
map_walked p va pa perm none = none
map_walked p va pa perm (some (t, budget)) =
    let (p', done) = map_entry p t va pa perm (walk 2 t va) in some (p', done, budget)

abbrev pub page_down : ℕ → ℕ
page_down a = a / 4096 * 4096

pub pgt_map_page : PageTable → ℕ → ℕ → ℕ → ℕ → Option (PageTable × Bool × ℕ)
unfolding walk make_path set_entry pa_to_ppn pte_to_pa
pgt_map_page p va pa perm budget =
    if leb max_va (page_down va)
    then some (p, false, budget)
    else map_walked p (page_down va) (page_down pa) perm (make_path 2 p.root (page_down va) budget)

abbrev pub found_pa : ℕ → Option ℕ → ℕ
found_pa va none = 0
found_pa va (some pte) = if pte_valid pte then bit_or (pte_to_pa pte) (va % 4096) else 0

-- lookup_pa, with the test of the range that page_walk makes.
pub lookup_pa : PageTable → ℕ → ℕ
unfolding walk pte_to_pa
lookup_pa p va = if leb max_va va then 0 else found_pa va (walk 2 p.root va)

abbrev pub freed : Bool → ℕ → List ℕ → List ℕ
freed false pa rest = rest
freed true pa rest = pa ∷ rest

abbrev pub unmap_entry : PageTable → ℕ → Bool → Option ℕ → PageTable × List ℕ
unmap_entry p va free_phys none = (p, [])
unmap_entry p va free_phys (some pte) =
    if pte_valid pte
    then (
      record p {
        root = set_entry 2 p.root va 0;
        mapped_pages = (p.mapped_pages + (2 ^ 32 - 1)) % 2 ^ 32;
      },
      freed free_phys (pte_to_pa pte) [],
    )
    else (p, [])

-- The loop of pgt_unmap, with the frames that are passed to put_page.
pub unmap_pages : ℕ → PageTable → ℕ → Bool → PageTable × List ℕ
unfolding walk set_entry pte_to_pa
unmap_pages zero p va free_phys = (p, [])
unmap_pages (suc rounds) p va free_phys =
    let (q, frames) = unmap_entry p va free_phys (walk 2 p.root va) in
    let (q', more) = unmap_pages rounds q (va + 4096) free_phys in (q', frames ++ more)

-- ROUNDUP, on words.
abbrev pub page_up : ℕ → ℕ
page_up a = ((a + (2 ^ 64 - 1)) % 2 ^ 64 / 4096 + 1) * 4096 % 2 ^ 64

abbrev pub done_all : PageTable × List ℕ → PageTable × Bool × List ℕ
done_all (p, frames) = (p, true, frames)

pub pgt_unmap : PageTable → ℕ → ℕ → Bool → PageTable × Bool × List ℕ
unfolding unmap_pages
pgt_unmap p va size free_phys =
    let start = page_down va in
    let end = page_up ((va + size) % 2 ^ 64) in
    if leb max_va start || ltb max_va end || ltb end start
    then (p, false, [])
    else done_all (unmap_pages ((end - start) / 4096) p start free_phys)
