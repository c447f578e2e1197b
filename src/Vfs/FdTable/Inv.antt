-- ===== src/Vfs/FdTable/Inv.antt =====
-- The shape of a table of descriptors, and what growing it keeps.
use oscomp.Common.{
  Bool-cases, inl, inr, ◌⊎◌, ℕ, ◌-◌, ◌++◌, ◌≤◌, ◌<◌, ◌≡◌, refl, Option, none, some, length,
  replicate, arith, leb, Bool, true, false, not, ◌&&◌, length-append, length-replicate,
  get_or-append_replicate, if◌then◌else◌,
}
use oscomp.Common.Errno.{Ret, ok, fail, einval, enomem}
use oscomp.Vfs.FdTable.{FdTable, fdtable_alloc, fdtable_expand, empty_table, file_at, flags_at}

pub record IsValid (t : FdTable) : Type 0 where
  pub files : length t.fd_array ≡ t.max_fds
  pub flags : length t.fd_flags ≡ t.max_fds
  pub next_in : t.fdt_nextfd ≤ t.max_fds
  pub nonempty : 0 < t.max_fds

-- The entries of two tables are the same at `fd`, where a table reads as empty past its end.
abbrev pub SameEntry : FdTable → FdTable → ℕ → Type 0
SameEntry t t' fd = (file_at t' fd ≡ file_at t fd) × (flags_at t' fd ≡ flags_at t fd)

-- The outcome of growing `t` to `n` entries.
abbrev pub Expanded : FdTable → ℕ → Bool → FdTable → Ret → Type 0
Expanded t n memory t' (ok r) =
    (t.max_fds < n)
    × (memory ≡ true)
    × (r ≡ 0)
    × (t'.max_fds ≡ n)
    × (t'.fdt_nextfd ≡ t.fdt_nextfd)
    × IsValid t'
    × ((fd : ℕ) → SameEntry t t' fd)
Expanded t n memory t' (fail e) =
    (t' ≡ t) × (((e ≡ einval) × (n ≤ t.max_fds)) ⊎ ((e ≡ enomem) × (memory ≡ false)))

abbrev grown : (t : FdTable) (n : ℕ) → FdTable
grown t n = record t {
  fd_array = t.fd_array ++ replicate (n - t.max_fds) none;
  fd_flags = t.fd_flags ++ replicate (n - t.max_fds) 0;
  max_fds = n;
}

grown-IsValid : (t : FdTable) (n : ℕ) → IsValid t → t.max_fds < n → IsValid (grown t n)
grown-IsValid t n v h = record {
  files = omega (
    arith,
    length-append t.fd_array (replicate (n - t.max_fds) none),
    length-replicate {A = Option ℕ} (n - t.max_fds) none,
  );
  flags = omega (
    arith,
    length-append t.fd_flags (replicate (n - t.max_fds) 0),
    length-replicate {A = ℕ} (n - t.max_fds) 0,
  );
  next_in = omega arith;
  nonempty = omega arith;
}

grown-SameEntry : (t : FdTable) (n fd : ℕ) → SameEntry t (grown t n) fd
grown-SameEntry t n fd = (
  get_or-append_replicate t.fd_array (n - t.max_fds) fd none,
  get_or-append_replicate t.fd_flags (n - t.max_fds) fd 0,
)

-- On a valid table `fdtable_expand` keeps every entry and adds empty ones, keeps the shape, and
-- changes nothing when it fails: with -EINVAL if the table is as large already, with -ENOMEM if one of
-- the two allocations fails.
pub fdtable_expand-Expanded :
    (t : FdTable) (n : ℕ) (k₁ k₂ : Bool)
    → IsValid t
    → Expanded t n (k₁ && k₂) (fdtable_expand t n k₁ k₂).0 (fdtable_expand t n k₁ k₂).1
unfolding fdtable_expand
fdtable_expand-Expanded t n k₁ k₂ v = elim (Bool-cases (leb n t.max_fds)) [
  | inl e ↦ rw e (refl, inl (refl, ground arith))
  | inr e ↦ rw e (go k₁ k₂ (ground arith))
]
  where
    go :
        (a b : Bool)
        → t.max_fds < n
        → let r : FdTable × Ret =
            if not a
            then (t, fail enomem)
            else if not b
            then (t, fail enomem)
            else (grown t n, ok 0) in
          Expanded t n (a && b) r.0 r.1
    go false b h = (refl, inr (refl, refl))
    go true false h = (refl, inr (refl, refl))
    go true true h =
        (h, refl, refl, refl, refl, grown-IsValid t n v h, λ fd. grown-SameEntry t n fd)

pub empty_table-IsValid : IsValid empty_table
empty_table-IsValid = record {
  files = refl;
  flags = refl;
  next_in = omega arith;
  nonempty = omega arith;
}

pub fdtable_alloc-eq :
    (k₁ k₂ k₃ : Bool) (t : FdTable) → fdtable_alloc k₁ k₂ k₃ ≡ some t → t ≡ empty_table
unfolding fdtable_alloc
fdtable_alloc-eq k₁ k₂ k₃ t h = ground arith
