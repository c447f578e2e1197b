-- ===== src/Vfs/FdTable/Reuse.antt =====
-- A descriptor from its allocation to its reuse.
use oscomp.Common.{
  ℕ, ◌<◌, ltb, ◌≡◌, ◌≢◌, refl, ap, Option, none, some, arith, Bool, true, false, get_or-set_self,
  get_or-set_ne, First, lt→leb, Bool-cases, inl, inr,
}
use oscomp.Common.Bits.{test_bit}
use oscomp.Common.Errno.{ok, fail, ebadf}
use oscomp.Vfs.File.{Refs, file_ref}
use oscomp.Vfs.FdTable.{
  FdTable, can_use, find_next_fd, place_fd, after_first, file_at, is_allocated, fd_allocated,
  close_entry, fdtable_close_fd, unref_closed, fdtable_get_file, fdtable_install_fd,
  fdtable_set_fd_flags, fdtable_get_fd_flags, fdtable_alloc_fd,
}
use oscomp.Vfs.FdTable.Inv.{IsValid, SameEntry}
use oscomp.Vfs.FdTable.Alloc.{find_next_fd-First}
use oscomp.Vfs.FdTable.Close.{close_entry-Closed}

First-here :
    (p : ℕ → Bool) (lo hi : ℕ) (r : Option ℕ)
    → p lo ≡ true
    → lo < hi
    → First p lo hi r
    → r ≡ some lo
First-here p lo hi none e h f = absurd (ground (arith, f lo (omega arith) h))
First-here p lo hi (some k) e h (a, b, c, d) = elim (Bool-cases (ltb lo k)) [
  | inl t ↦ absurd (ground (arith, d lo (omega arith)))
  | inr t ↦ (let same : k ≡ lo = ground arith in rw same)
]

unref_closed_table :
    (u t' : FdTable) (r r' : Refs) (f : ℕ) → unref_closed u r (some f) ≡ some (t', r') → t' ≡ u
unfolding unref_closed
unref_closed_table u t' r r' f c = ground arith

closed_table :
    (t t' : FdTable) (r r' : Refs) (fd f : ℕ)
    → fd < t.max_fds
    → file_at t fd ≡ some f
    → fdtable_close_fd t r fd ≡ some (t', r')
    → t' ≡ close_entry t fd (some f)
unfolding fdtable_close_fd
closed_table t t' r r' fd f h e c =
    unref_closed_table (close_entry t fd (some f)) t' r r' f (rw (lt→leb fd t.max_fds h, e) at c)

reused :
    (u : FdTable) (fd flags : ℕ) (k₁ k₂ : Bool)
    → can_use u fd ≡ true
    → u.fdt_nextfd ≡ fd
    → fd < u.max_fds
    → (fdtable_alloc_fd u flags k₁ k₂).1 ≡ ok fd
unfolding fdtable_alloc_fd place_fd
reused u fd flags k₁ k₂ free next lt =
    let found : find_next_fd u u.fdt_nextfd ≡ some fd = rw next (
      First-here (can_use u) fd u.max_fds (find_next_fd u fd) free lt
        (find_next_fd-First u fd (omega arith))) in
    rw (found, after_first) refl

next_closed :
    (t : FdTable) (fd f : ℕ) → fd < t.fdt_nextfd → (close_entry t fd (some f)).fdt_nextfd ≡ fd
unfolding close_entry
next_closed t fd f h = ground arith

-- Closing a descriptor that holds a file and lies below the next number to try makes it the next one
-- that `fdtable_allocFd` gives.
pub alloc_fd-close_fd :
    (t t' : FdTable) (r r' : Refs) (fd f flags : ℕ) (k₁ k₂ : Bool)
    → IsValid t
    → fd < t.fdt_nextfd
    → file_at t fd ≡ some f
    → fdtable_close_fd t r fd ≡ some (t', r')
    → (fdtable_alloc_fd t' flags k₁ k₂).1 ≡ ok fd
alloc_fd-close_fd t t' r r' fd f flags k₁ k₂ v h e c =
    let in_range : fd < t.max_fds = omega (arith, v.next_in) in
    let closed = close_entry-Closed t fd v in_range (some f) e in
    rw (closed_table t t' r r' fd f in_range e c) (
      reused (close_entry t fd (some f)) fd flags k₁ k₂ closed.free (next_closed t fd f h)
        (omega (arith, closed.size)))

-- Installing a file in a descriptor that is allocated returns the descriptor and makes that file the
-- one that it gives, with one more reference; every other entry is as before.
pub get_file-install_fd :
    (t : FdTable) (r : Refs) (fd f : ℕ)
    → IsValid t
    → fd < t.max_fds
    → is_allocated t fd ≡ true
    → let (t', ret) = fdtable_install_fd t fd (some f) in
      (ret ≡ ok fd)
      × (fdtable_get_file t' r fd ≡ file_ref r (some f))
      × ((i : ℕ) → fd ≢ i → SameEntry t t' i)
unfolding fdtable_install_fd fdtable_get_file
get_file-install_fd t r fd f v h a =
    rw (lt→leb fd t.max_fds h, a)
      (
        refl,
        rw (lt→leb fd t.max_fds h) (
            ap (file_ref r) (get_or-set_self t.fd_array fd (some f) none (omega (arith, v.files)))),
        λ i ne. (get_or-set_ne t.fd_array fd i (some f) none ne, refl),
      )

-- Storing flags in a descriptor with a file makes them the flags that it has; where they lack
-- FD_ALLOCATED, no file can be installed in the descriptor any more.
pub set_fd_flags-install_fd :
    (t : FdTable) (fd f g flags : ℕ)
    → IsValid t
    → fd < t.max_fds
    → file_at t fd ≡ some f
    → test_bit flags fd_allocated ≡ false
    → let (t', ret) = fdtable_set_fd_flags t fd flags in
      (ret ≡ ok 0)
      × (fdtable_get_fd_flags t' fd ≡ flags)
      × ((fdtable_install_fd t' fd (some g)).1 ≡ fail ebadf)
unfolding fdtable_set_fd_flags fdtable_get_fd_flags fdtable_install_fd
set_fd_flags-install_fd t fd f g flags v h e miss =
    let stored = get_or-set_self t.fd_flags fd flags 0 (omega (arith, v.flags)) in
    rw (lt→leb fd t.max_fds h, e)
      (refl, rw (lt→leb fd t.max_fds h, e) stored, rw (lt→leb fd t.max_fds h) (rw (stored, miss)))
