-- ===== src/Mm/Space.antt =====
-- The areas of an address space, kernel/mm/mm_struct.c, vma.c and mmap.c. An address is below 2 ^ 64.
-- An area is smaller than 2 ^ 43 bytes, so that its number of pages fits an int32.
pub mod Areas
pub mod Setup
pub mod Free
pub mod Unmap
pub mod Brk
mod Tests
use oscomp.Common.{
  ℕ, zero, suc, ◌+◌, ◌-◌, ◌*◌, ◌/◌, ◌%◌, ◌^◌, ◌==◌, ltb, leb, Bool, true, false, not, ◌&&◌, ◌||◌,
  Option, none, some, List, [], ◌∷◌, replicate, if◌then◌else◌,
}
use oscomp.Common.Bits.{test_bit}
use oscomp.Common.Errno.{Ret, ok, fail, enomem}
use oscomp.Mm.Flags.{
  prot_read, prot_write, prot_exec, vm_read, vm_write, vm_exec, vm_mayread, vm_maywrite, vm_mayexec,
  set_both,
}

pub data VmaType : Type 0 where
  vma_anonymous vma_private vma_shared vma_file vma_stack vma_heap vma_text vma_data vma_bss
        vma_vdso :
      VmaType

-- `struct vm_area_struct`. A page is its number, or null.
pub record Area : Type 0 where
  pub vm_start : ℕ
  pub vm_end : ℕ
  pub vm_prot : ℕ
  pub vm_type : VmaType
  pub vm_flags : ℕ
  pub pages : List (Option ℕ)
  pub page_count : ℕ

-- `struct mm_struct`, less the page table, the stack and the counts of users.
pub record Mm : Type 0 where
  pub vma_list : List Area
  pub map_count : ℕ
  pub start_code : ℕ
  pub end_code : ℕ
  pub start_data : ℕ
  pub end_data : ℕ
  pub start_brk : ℕ
  pub brk : ℕ

abbrev pub page_size : ℕ
page_size = 4096

-- Addition of `uint64`.
abbrev pub add64 : ℕ → ℕ → ℕ
add64 a b = (a + b) % 2 ^ 64

-- `ROUNDUP(a, PAGE_SIZE)` on `uint64`
abbrev pub roundup : ℕ → ℕ
roundup a = (add64 a (2 ^ 64 - 1) / page_size + 1) * page_size % 2 ^ 64

-- The first area that passes the test, with its place in the list.
pub find_area : (Area → Bool) → List Area → Option (ℕ × Area)
find_area p [] = none
find_area p (a ∷ xs) =
    let rest = find_area p xs in
    if p a then some (0, a) else elim rest [ none ↦ none | some (i, b) ↦ some (suc i, b) ]

abbrev pub contains : ℕ → Area → Bool
contains addr a = leb a.vm_start addr && ltb addr a.vm_end

abbrev pub meets : ℕ → ℕ → Area → Bool
meets start stop a = ltb start a.vm_end && ltb a.vm_start stop

unfoldable pub find_vma : Mm → ℕ → Option (ℕ × Area)
find_vma mm addr = find_area (contains addr) mm.vma_list

unfoldable pub find_vma_intersection : Mm → ℕ → ℕ → Option (ℕ × Area)
find_vma_intersection mm start stop =
    if leb stop start then none else find_area (meets start stop) mm.vma_list

abbrev pub is_null {ℓ} : {A : Type ℓ} → Option A → Bool
is_null none = true
is_null (some _) = false

-- The fields that `memset` left are 0: `vm_prot` among them.
pub vma_init : ℕ → ℕ → VmaType → ℕ → ℕ → Area
vma_init start stop type prot flags =
    let r = set_both (test_bit prot prot_read) flags vm_read vm_mayread in
    let w = set_both (test_bit prot prot_write) r vm_write vm_maywrite in
    record {
      vm_start = start;
      vm_end = stop;
      vm_prot = 0;
      vm_type = type;
      vm_flags = set_both (test_bit prot prot_exec) w vm_exec vm_mayexec;
      pages = [];
      page_count = (stop - start + page_size - 1) / page_size;
    }

-- `k` says whether kmalloc succeeds.
pub vma_alloc_page_array : Area → Bool → Area × Ret
vma_alloc_page_array a k =
    if a.page_count == 0
    then (a, ok 0)
    else if k
    then (record a { pages = replicate a.page_count none }, ok 0)
    else (a, fail enomem)

-- `list_add` puts the area at the front.
pub insert_vm_struct : Mm → Area → Mm × Ret
unfolding find_vma_intersection find_area
insert_vm_struct mm a =
    if not (is_null (find_vma_intersection mm a.vm_start a.vm_end))
    then (mm, fail enomem)
    else (record mm { vma_list = a ∷ mm.vma_list; map_count = mm.map_count + 1 }, ok 0)

-- The bounds of code and data.
pub with_segment : Mm → VmaType → ℕ → ℕ → Mm
with_segment mm vma_text addr stop = record mm {
  start_code = if mm.start_code == 0 || ltb addr mm.start_code then addr else mm.start_code;
  end_code = if ltb mm.end_code stop then stop else mm.end_code;
}
with_segment mm vma_data addr stop = record mm {
  start_data = if mm.start_data == 0 || ltb addr mm.start_data then addr else mm.start_data;
  end_data = if ltb mm.end_data stop then stop else mm.end_data;
}
with_segment mm _ addr stop = mm

pub inserted : Mm → Area → Mm × Ret → Mm × Option Area
unfolding with_segment
inserted mm a (mm', fail _) = (mm, none)
inserted mm a (mm', ok _) = (with_segment mm' a.vm_type a.vm_start a.vm_end, some a)

pub with_pages : Mm → Area × Ret → Mm × Option Area
unfolding inserted insert_vm_struct
with_pages mm (a, fail _) = (mm, none)
with_pages mm (a, ok _) = inserted mm a (insert_vm_struct mm a)

-- The new area is the first of the list. The two Booleans are the calls of kmalloc.
pub vm_area_setup : Mm → ℕ → ℕ → VmaType → ℕ → ℕ → Bool → Bool → Mm × Option Area
unfolding with_pages vma_alloc_page_array vma_init
vm_area_setup mm addr len type prot flags k₁ k₂ =
    if leb (add64 addr len) addr
    then (mm, none)
    else if not k₁
    then (mm, none)
    else with_pages mm (vma_alloc_page_array (vma_init addr (add64 addr len) type prot flags) k₂)
