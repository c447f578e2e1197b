-- ===== src/Vfs/FdTable.antt =====
-- Tables of file descriptors, kernel/fs/vfs/fdtable.c. A `Bool` argument says whether the kmalloc at
-- that place succeeds, in the order of the calls. The spinlock makes each locked region one step.
pub mod Inv
pub mod Alloc
pub mod Close
pub mod Share
pub mod Reuse
mod Tests
use oscomp.Common.{
  ℕ, zero, suc, ◌+◌, ◌-◌, ◌*◌, ◌%◌, ◌^◌, ◌==◌, ltb, leb, Bool, true, false, not, ◌&&◌, ◌||◌, Option,
  none, some, List, [], ◌∷◌, ◌++◌, get_or, set, replicate, if◌then◌else◌, scan,
}
use oscomp.Common.Bits.{test_bit, set_bit, clear_bit}
use oscomp.Common.Errno.{Ret, ok, fail, eperm, einval, enomem, emfile, ebadf}
use oscomp.Vfs.File.{Refs, file_ref, file_unref}

-- `struct fdtable`. An entry of `fd_array` is a file or null.
pub record FdTable : Type 0 where
  pub fd_array : List (Option ℕ)
  pub fd_flags : List ℕ
  pub max_fds : ℕ
  pub fdt_nextfd : ℕ
  pub fdt_refcount : ℕ

abbrev pub fdtable_init_size : ℕ
fdtable_init_size = 16

-- The bit of FD_ALLOCATED.
abbrev pub fd_allocated : ℕ
fd_allocated = 24

abbrev pub file_at : FdTable → ℕ → Option ℕ
file_at t fd = get_or t.fd_array fd none

abbrev pub flags_at : FdTable → ℕ → ℕ
flags_at t fd = get_or t.fd_flags fd 0

-- `fd_flags[fd] & FD_ALLOCATED`
abbrev pub is_allocated : FdTable → ℕ → Bool
is_allocated t fd = test_bit (flags_at t fd) fd_allocated

abbrev pub is_null {ℓ} : {A : Type ℓ} → Option A → Bool
is_null none = true
is_null (some _) = false

-- What `__fdtable_alloc` fills in.
abbrev pub empty_table : FdTable
empty_table = record {
  fd_array = replicate fdtable_init_size none;
  fd_flags = replicate fdtable_init_size 0;
  max_fds = fdtable_init_size;
  fdt_nextfd = 0;
  fdt_refcount = 1;
}

pub fdtable_alloc : Bool → Bool → Bool → Option FdTable
fdtable_alloc k₁ k₂ k₃ = if k₁ && k₂ && k₃ then some empty_table else none

-- The arrays have `max_fds` entries, so a copy of them is followed by zeros.
pub fdtable_expand : FdTable → ℕ → Bool → Bool → FdTable × Ret
fdtable_expand t new_size k₁ k₂ =
    if leb new_size t.max_fds
    then (t, fail einval)
    else if not k₁
    then (t, fail enomem)
    else if not k₂
    then (t, fail enomem)
    else (
      record t {
        fd_array = t.fd_array ++ replicate (new_size - t.max_fds) none;
        fd_flags = t.fd_flags ++ replicate (new_size - t.max_fds) 0;
        max_fds = new_size;
      },
      ok 0,
    )

abbrev pub can_use : FdTable → ℕ → Bool
can_use t i = is_null (file_at t i) && not (is_allocated t i)

-- `none` is the result -1.
pub find_next_fd : FdTable → ℕ → Option ℕ
find_next_fd t start = scan (can_use t) (t.max_fds - start) start

-- The end of `fdtable_allocFd`, at the number that the searches left in `fd`.
pub place_fd : FdTable → ℕ → Option ℕ → FdTable × Ret
place_fd t flags none = (t, fail eperm)
place_fd t flags (some fd) = (
  record t {
    fd_array = set t.fd_array fd none;
    fd_flags = set t.fd_flags fd (set_bit flags fd_allocated);
    fdt_nextfd = fd + 1;
  },
  ok fd,
)

-- The call of `fdtable_expand` has returned.
pub after_expand : FdTable × Ret → ℕ → FdTable × Ret
unfolding place_fd find_next_fd
after_expand (t, fail _) flags = (t, fail emfile)
after_expand (t, ok _) flags = place_fd t flags (find_next_fd t t.fdt_nextfd)

-- The second search has returned.
pub after_second : FdTable → ℕ → Bool → Bool → Option ℕ → FdTable × Ret
unfolding after_expand fdtable_expand
after_second t flags k₁ k₂ (some fd) = place_fd t flags (some fd)
after_second t flags k₁ k₂ none =
    after_expand (fdtable_expand t (t.max_fds * 2 % 2 ^ 32) k₁ k₂) flags

-- The first search has returned.
pub after_first : FdTable → ℕ → Bool → Bool → Option ℕ → FdTable × Ret
unfolding after_second
after_first t flags k₁ k₂ (some fd) = place_fd t flags (some fd)
after_first t flags k₁ k₂ none = after_second t flags k₁ k₂ (find_next_fd t 0)

pub fdtable_alloc_fd : FdTable → ℕ → Bool → Bool → FdTable × Ret
unfolding after_first
fdtable_alloc_fd t flags k₁ k₂ = after_first t flags k₁ k₂ (find_next_fd t t.fdt_nextfd)

-- What `fdtable_closeFd` does to the table, at the file that it found.
pub close_entry : FdTable → ℕ → Option ℕ → FdTable
close_entry t fd none = record t {
  fd_flags = set t.fd_flags fd (clear_bit 32 (flags_at t fd) fd_allocated);
}
close_entry t fd (some _) = record t {
  fd_array = set t.fd_array fd none;
  fd_flags = set t.fd_flags fd (clear_bit 32 0 fd_allocated);
  fdt_nextfd = if ltb fd t.fdt_nextfd then fd else t.fdt_nextfd;
}

-- `if (file) { file_unref(file); }`, and what stands for the end of the function.
pub unref_closed : FdTable → Refs → Option ℕ → Option (FdTable × Refs)
unref_closed t r none = some (t, r)
unref_closed t r (some f) = elim (file_unref r (some f)) [
  | some (r', _) ↦ some (t, r')
  | none ↦ none
]

pub fdtable_close_fd : FdTable → Refs → ℕ → Option (FdTable × Refs)
unfolding close_entry unref_closed
fdtable_close_fd t r fd =
    if leb t.max_fds fd
    then some (t, r)
    else unref_closed (close_entry t fd (file_at t fd)) r (file_at t fd)

-- A file that stands in the entry loses its place; its count is not changed.
pub fdtable_install_fd : FdTable → ℕ → Option ℕ → FdTable × Ret
fdtable_install_fd t fd file =
    if is_null file || leb t.max_fds fd
    then (t, fail einval)
    else if not (is_allocated t fd)
    then (t, fail ebadf)
    else (record t { fd_array = set t.fd_array fd file }, ok fd)

pub fdtable_get_file : FdTable → Refs → ℕ → Option (Refs × Option ℕ)
fdtable_get_file t r fd = if leb t.max_fds fd then some (r, none) else file_ref r (file_at t fd)

pub fdtable_set_fd_flags : FdTable → ℕ → ℕ → FdTable × Ret
fdtable_set_fd_flags t fd flags =
    if leb t.max_fds fd
    then (t, fail einval)
    else if is_null (file_at t fd)
    then (t, fail ebadf)
    else (record t { fd_flags = set t.fd_flags fd flags }, ok 0)

pub fdtable_get_fd_flags : FdTable → ℕ → ℕ
fdtable_get_fd_flags t fd =
    if leb t.max_fds fd then 0 else if is_null (file_at t fd) then 0 else flags_at t fd

-- The rest of `do_close`, when `fdtable_getFile` has returned.
pub close_file : FdTable → Refs → ℕ → Option ℕ → Option (FdTable × Refs × Ret)
close_file t r fd none = some (t, r, fail ebadf)
close_file t r fd (some f) = elim (fdtable_close_fd t r fd) [
  | none ↦ none
  | some (t', r') ↦ elim (file_unref r' (some f)) [
    | none ↦ none
    | some (r'', ret) ↦ some (t', r'', ret)
  ]
]

-- A negative descriptor, converted to `uint64`, is above every table: it is a number above `max_fds`.
pub do_close : FdTable → Refs → ℕ → Option (FdTable × Refs × Ret)
do_close t r fd = elim (fdtable_get_file t r fd) [
  | none ↦ none
  | some (r', file) ↦ close_file t r' fd file
]
