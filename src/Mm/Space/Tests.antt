-- ===== src/Mm/Space/Tests.antt =====
-- An address space with a heap of two pages and a stack of one.
use oscomp.Common.{◌≡◌, refl, [], ◌∷◌, some, none, arith, true, inl}
use oscomp.Common.Errno.{fail, enomem}
use oscomp.Mm.Space.{Area, Mm, vma_heap, vma_stack, vma_data, vm_area_setup}
use oscomp.Mm.Space.Areas.{IsValid}
use oscomp.Mm.Space.Setup.{SetUp, vm_area_setup-SetUp}
use oscomp.Mm.Space.Unmap.{do_unmap}
use oscomp.Mm.Space.Unmap.Laws.{Unmapped, do_unmap-Unmapped}
use oscomp.Mm.Space.Unmap.Cases.{do_unmap_inside}
use oscomp.Mm.Space.Brk.{do_brk}
use oscomp.Mm.Space.Brk.Laws.{Moved, do_brk-Moved}

abbrev heap : Area
heap = record {
  vm_start = 4194304;
  vm_end = 4202496;
  vm_prot = 0;
  vm_type = vma_heap;
  vm_flags = 3187;
  pages = some 5 ∷ none ∷ [];
  page_count = 2;
}

abbrev stack : Area
stack = record {
  vm_start = 2147479552;
  vm_end = 2147483648;
  vm_prot = 0;
  vm_type = vma_stack;
  vm_flags = 2675;
  pages = some 6 ∷ [];
  page_count = 1;
}

abbrev two_areas : Mm
two_areas = record {
  vma_list = heap ∷ stack ∷ [];
  map_count = 2;
  start_code = 4194304;
  end_code = 4194304;
  start_data = 268435456;
  end_data = 268435456;
  start_brk = 4194304;
  brk = 4202496;
}

two_areas-IsValid : IsValid two_areas
two_areas-IsValid = record {
  areas = ((omega arith, omega arith), ((omega arith, omega arith), tt));
  disjoint = ((inl (omega arith), tt), (tt, tt));
  counted = refl;
}

vm_area_setup-SetUp_example :
    SetUp two_areas 268435456 268443648
      (vm_area_setup two_areas 268435456 8192 vma_data 3 2048 true true).0
      (vm_area_setup two_areas 268435456 8192 vma_data 3 2048 true true).1
vm_area_setup-SetUp_example =
    vm_area_setup-SetUp two_areas 268435456 8192 vma_data 3 2048 true true two_areas-IsValid

do_unmap-Unmapped_example :
    Unmapped two_areas (do_unmap two_areas 4194304 8192 true true true true).0 4194304 4202496
do_unmap-Unmapped_example =
    do_unmap-Unmapped two_areas 4194304 8192 true true true true two_areas-IsValid

do_unmap_inside_example :
    do_unmap two_areas 4198400 4096 true true true true ≡ (two_areas, fail enomem, [])
do_unmap_inside_example =
    do_unmap_inside two_areas 4198400 4096 true true true true 0 heap two_areas-IsValid
      (omega arith) refl refl (omega arith) refl (omega arith) (omega arith)

do_brk-Moved_example :
    Moved two_areas (do_brk two_areas 4210688 true true).0 (do_brk two_areas 4210688 true true).1
do_brk-Moved_example = do_brk-Moved two_areas 4210688 true true two_areas-IsValid
