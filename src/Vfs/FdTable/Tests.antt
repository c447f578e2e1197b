-- ===== src/Vfs/FdTable/Tests.antt =====
-- A table with three descriptors in use.
use oscomp.Common.{
  ℕ, ◌≡◌, refl, ◌≤◌, ◌∷◌, some, none, arith, replicate, if◌then◌else◌, true, ◌==◌, scan, ◌++◌, inl,
}
use oscomp.Common.Bits.{test_bit, set_bit}
use oscomp.Common.Errno.{ok, fail, ebadf}
use oscomp.Vfs.File.{Refs}
use oscomp.Vfs.File.Laws.{Dropped}
use oscomp.Vfs.FdTable.{
  FdTable, fdtable_alloc_fd, fdtable_install_fd, do_close, empty_table, place_fd, find_next_fd,
  after_first,
}
use oscomp.Vfs.FdTable.Inv.{IsValid}
use oscomp.Vfs.FdTable.Alloc.{Given, fdtable_alloc_fd-Given}
use oscomp.Vfs.FdTable.Close.{Closed, do_close-Closed}
use oscomp.Vfs.FdTable.Share.{fdtable_copy, copy_entries, with_next}
use oscomp.Vfs.FdTable.Share.Laws.{CopiedEntry, fdtable_copy-Copies}

-- Descriptors 0 and 2 hold the files 7 and 8; 1 is allocated and holds none.
abbrev three : FdTable
three = record {
  fd_array = some 7 ∷ none ∷ some 8 ∷ replicate 13 none;
  fd_flags = 16777216 ∷ 16777216 ∷ 16777217 ∷ replicate 13 0;
  max_fds = 16;
  fdt_nextfd = 3;
  fdt_refcount = 1;
}

three-IsValid : IsValid three
three-IsValid = record { files = refl; flags = refl; next_in = omega arith; nonempty = omega arith }

-- File 7 has two references, file 8 has one.
abbrev counts : Refs
counts f = if f == 7 then 2 else 1

runs :
    ((fdtable_alloc_fd three 5 true true).1 ≡ ok 3)
    × ((fdtable_install_fd three 1 (some 9)).1 ≡ ok 1)
    × ((fdtable_install_fd three 4 (some 9)).1 ≡ fail ebadf)
unfolding fdtable_alloc_fd find_next_fd after_first place_fd fdtable_install_fd test_bit set_bit
    scan
runs = (refl, refl, refl)

fdtable_alloc_fd-Given_example :
    Given three 5 true (fdtable_alloc_fd three 5 true true).0 (fdtable_alloc_fd three 5 true true).1
fdtable_alloc_fd-Given_example = fdtable_alloc_fd-Given three 5 true true three-IsValid

-- File 7 is open elsewhere, so the call reports -EBADF.
do_close-Closed_example :
    (t' : FdTable) × (r' : Refs) × (do_close three counts 0 ≡ some (t', r', fail ebadf))
    × Closed three t' 0
    × Dropped counts (some 7) r'
do_close-Closed_example =
    do_close-Closed three counts 0 7 three-IsValid (omega arith) refl (omega arith)

abbrev child : FdTable
child = with_next (copy_entries three empty_table 16 0) 3

copied : fdtable_copy three true true true true true ≡ some child
unfolding fdtable_copy
copied = refl

-- A table that has grown once.
abbrev grown : FdTable
grown = record three {
  fd_array = three.fd_array ++ replicate 16 none;
  fd_flags = three.fd_flags ++ replicate 16 0;
  max_fds = 32;
}

grown-IsValid : IsValid grown
grown-IsValid = record { files = refl; flags = refl; next_in = omega arith; nonempty = omega arith }

fdtable_copy-Copies_example :
    (new : FdTable) × (fdtable_copy grown true true true true true ≡ some new)
    × ((j : ℕ) → CopiedEntry grown new j)
    × IsValid new
    × (32 ≤ new.max_fds)
    × (new.fdt_nextfd ≡ grown.fdt_nextfd)
fdtable_copy-Copies_example =
    fdtable_copy-Copies grown true true true true true grown-IsValid (omega arith) refl (inl refl)
