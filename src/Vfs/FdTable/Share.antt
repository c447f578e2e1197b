-- ===== src/Vfs/FdTable/Share.antt =====
-- References to a table and its copy for a new process, kernel/fs/vfs/fdtable.c.
pub mod Laws
use oscomp.Common.{
  ℕ, zero, suc, ◌+◌, ◌-◌, ◌==◌, ltb, Bool, Option, none, some, List, set, if◌then◌else◌,
}
use oscomp.Common.Errno.{Ret, ok, fail}
use oscomp.Vfs.FdTable.{
  FdTable, fdtable_alloc, fdtable_expand, fdtable_init_size, file_at, flags_at,
}

-- A null argument asks for a fresh table.
pub fdtable_acquire : Option FdTable → Bool → Bool → Bool → Option FdTable
unfolding fdtable_alloc
fdtable_acquire none k₁ k₂ k₃ = fdtable_alloc k₁ k₂ k₃
fdtable_acquire (some t) k₁ k₂ k₃ =
    if t.fdt_refcount == 0 then none else some (record t { fdt_refcount = t.fdt_refcount + 1 })

-- The outer `none` is the panic, the inner one a table that was freed.
pub fdtable_unref : FdTable → Option (Option FdTable)
fdtable_unref t =
    if t.fdt_refcount == 0
    then none
    else if t.fdt_refcount - 1 == 0
    then some none
    else some (some (record t { fdt_refcount = t.fdt_refcount - 1 }))

pub copy_entry : FdTable → FdTable → ℕ → Option ℕ → FdTable
copy_entry old new i none = new
copy_entry old new i (some f) = record new {
  fd_array = set new.fd_array i (some f);
  fd_flags = set new.fd_flags i (flags_at old i);
}

-- The loop over `i`, with `n` rounds left. No file's count changes.
pub copy_entries : FdTable → FdTable → ℕ → ℕ → FdTable
unfolding copy_entry
copy_entries old new zero i = new
copy_entries old new (suc n) i = copy_entries old (copy_entry old new i (file_at old i)) n (i + 1)

abbrev pub with_next : FdTable → ℕ → FdTable
with_next t n = record t { fdt_nextfd = n }

-- The new table is large enough, or growing it has failed.
pub copy_into : FdTable → FdTable × Ret → Option FdTable
unfolding copy_entries
copy_into old (new, fail _) = none
copy_into old (new, ok _) = some (with_next (copy_entries old new old.max_fds 0) old.fdt_nextfd)

pub grow_for : FdTable → FdTable → Bool → Bool → FdTable × Ret
unfolding fdtable_expand
grow_for old new k₁ k₂ =
    if ltb fdtable_init_size old.max_fds then fdtable_expand new old.max_fds k₁ k₂ else (new, ok 0)

pub copy_fresh : FdTable → Bool → Bool → Option FdTable → Option FdTable
unfolding copy_into grow_for
copy_fresh old k₁ k₂ none = none
copy_fresh old k₁ k₂ (some new) = copy_into old (grow_for old new k₁ k₂)

-- The three allocations of the new table, then the two of its growth.
unfoldable pub fdtable_copy : FdTable → Bool → Bool → Bool → Bool → Bool → Option FdTable
unfolding copy_fresh fdtable_alloc
fdtable_copy old k₁ k₂ k₃ k₄ k₅ =
    if old.fdt_refcount == 0 then none else copy_fresh old k₄ k₅ (fdtable_alloc k₁ k₂ k₃)
