-- ===== src/Vfs/FdTable/Alloc.antt =====
-- `fdtable_allocFd`: which number it gives, and when it gives none.
use oscomp.Common.{
  ltb, ltb→lt, ltb→le, Bool-cases, ◌+◌, ℕ, ◌-◌, ◌*◌, ◌%◌, ◌^◌, ◌≤◌, ◌<◌, ◌≡◌, ◌≢◌, ◌⊎◌, inl, inr,
  refl, ◌∙◌, Option, none, some, get_or, set, arith, Bool, true, false, ◌&&◌, First, scan-First,
  get_or_past, get_or-set_self, get_or-set_ne, length-set,
}
use oscomp.Common.Bits.{set_bit, test_bit-set_bit, test_bit-zero}
use oscomp.Common.Errno.{Ret, ok, fail, emfile}
use oscomp.Vfs.FdTable.{
  FdTable, can_use, find_next_fd, place_fd, after_expand, after_second, after_first,
  fdtable_alloc_fd, fdtable_expand, file_at, flags_at, is_allocated, fd_allocated,
}
use oscomp.Vfs.FdTable.Inv.{IsValid, SameEntry, Expanded, fdtable_expand-Expanded}

-- The order of the search: from the next number on, then from 0, then the first of a larger table.
abbrev pub Chosen : FdTable → ℕ → Type 0
Chosen t fd =
    ((t.fdt_nextfd ≤ fd)
      × (fd < t.max_fds)
      × ((i : ℕ) → t.fdt_nextfd ≤ i → i < fd → can_use t i ≡ false))
    ⊎ ((fd < t.max_fds)
        × ((i : ℕ) → t.fdt_nextfd ≤ i → i < t.max_fds → can_use t i ≡ false)
        × ((i : ℕ) → i < fd → can_use t i ≡ false))
    ⊎ ((fd ≡ t.max_fds) × ((i : ℕ) → i < t.max_fds → can_use t i ≡ false))

-- The outcome of asking `t` for a descriptor; `memory` says that both allocations of a growth succeed.
abbrev pub Given : FdTable → ℕ → Bool → FdTable → Ret → Type 0
Given t flags memory t' (ok fd) =
    (can_use t fd ≡ true)
    × (fd < t'.max_fds)
    × (is_allocated t' fd ≡ true)
    × (file_at t' fd ≡ none)
    × (flags_at t' fd ≡ set_bit flags fd_allocated)
    × ((i : ℕ) → fd ≢ i → SameEntry t t' i)
    × IsValid t'
    × (t'.fdt_nextfd ≡ fd + 1)
    × Chosen t fd
Given t flags memory t' (fail e) =
    (e ≡ emfile)
    × (t' ≡ t)
    × ((i : ℕ) → i < t.max_fds → can_use t i ≡ false)
    × ((memory ≡ false) ⊎ (2 ^ 31 ≤ t.max_fds))

pub find_next_fd-First :
    (t : FdTable) (start : ℕ)
    → start ≤ t.max_fds
    → First (can_use t) start t.max_fds (find_next_fd t start)
unfolding find_next_fd
find_next_fd-First t start h =
    scan-First (can_use t) (t.max_fds - start) start t.max_fds (omega arith)

-- Placing a number that `t` can use in a table `u` with the same entries.
place_fd-Given :
    (t u : FdTable) (flags fd : ℕ) (memory : Bool)
    → IsValid u
    → ((i : ℕ) → SameEntry t u i)
    → can_use t fd ≡ true
    → fd < u.max_fds
    → Chosen t fd
    → Given t flags memory (place_fd u flags (some fd)).0 (place_fd u flags (some fd)).1
unfolding place_fd
place_fd-Given t u flags fd memory v same free h chosen =
    let flag : get_or (set u.fd_flags fd (set_bit flags fd_allocated)) fd 0
        ≡ set_bit flags fd_allocated =
      get_or-set_self u.fd_flags fd (set_bit flags fd_allocated) 0 (omega arith) in
    (
      free,
      h,
      rw flag (ground (arith, test_bit-set_bit flags fd_allocated fd_allocated)),
      get_or-set_self u.fd_array fd none none (omega arith),
      flag,
      λ i ne. (
        get_or-set_ne u.fd_array fd i none none ne ∙ (same i).0,
        get_or-set_ne u.fd_flags fd i (set_bit flags fd_allocated) 0 ne ∙ (same i).1,
      ),
      record {
        files = omega (arith, length-set u.fd_array fd none);
        flags = omega (arith, length-set u.fd_flags fd (set_bit flags fd_allocated));
        next_in = omega arith;
        nonempty = omega arith;
      },
      refl,
      chosen,
    )

can_use_same : (t u : FdTable) (i : ℕ) → SameEntry t u i → can_use u i ≡ can_use t i
can_use_same t u i (p, q) = rw (p, q)

-- Past its end a table reads as free.
can_use_past : (t : FdTable) (i : ℕ) → IsValid t → t.max_fds ≤ i → can_use t i ≡ true
can_use_past t i v h =
    let file = get_or_past t.fd_array i none (omega arith) in
    let flag = get_or_past t.fd_flags i 0 (omega arith) in
    rw (file, flag) (ground (arith, test_bit-zero fd_allocated))

after_expand-Given :
    (t u : FdTable) (flags : ℕ) (memory : Bool) (r : Ret)
    → IsValid t
    → ((i : ℕ) → i < t.max_fds → can_use t i ≡ false)
    → Expanded t (t.max_fds * 2 % 2 ^ 32) memory u r
    → Given t flags memory (after_expand (u, r) flags).0 (after_expand (u, r) flags).1
unfolding after_expand
after_expand-Given t u flags memory (ok r) v full (lt, mem, _, size, next, w, same) =
    placed (find_next_fd u u.fdt_nextfd) (find_next_fd-First u u.fdt_nextfd w.next_in)
  where
    -- The first number that is free is the first behind the old end.
    first_new :
        (fd : ℕ)
        → u.fdt_nextfd ≤ fd
        → can_use u fd ≡ true
        → ((i : ℕ) → u.fdt_nextfd ≤ i → i < fd → can_use u i ≡ false)
        → fd ≡ t.max_fds
    first_new fd from hit before = elim (Bool-cases (ltb fd t.max_fds)) [
      | inl low ↦
          absurd
            (ground (arith, full fd (ltb→lt fd t.max_fds low), can_use_same t u fd (same fd), hit))
      | inr high ↦ elim (Bool-cases (ltb t.max_fds fd)) [
        | inl above ↦ absurd (
            ground (
              arith,
              before t.max_fds (omega (arith, v.next_in)) (ltb→lt t.max_fds fd above),
              can_use_past t t.max_fds v (omega arith),
              can_use_same t u t.max_fds (same t.max_fds),
            ))
        | inr below ↦ omega (arith, ltb→le fd t.max_fds high, ltb→le t.max_fds fd below)
      ]
    ]

    placed :
        (o : Option ℕ)
        → First (can_use u) u.fdt_nextfd u.max_fds o
        → Given t flags memory (place_fd u flags o).0 (place_fd u flags o).1
    placed none f = absurd (
        ground (
          arith,
          f t.max_fds (omega (arith, v.next_in)) (omega arith),
          can_use_past t t.max_fds v (omega arith),
          can_use_same t u t.max_fds (same t.max_fds),
        ))
    placed (some fd) (from, below, hit, before) =
        place_fd-Given t u flags fd memory w same (ground (arith, can_use_same t u fd (same fd)))
          below (inr (inr (first_new fd from hit before, full)))
after_expand-Given t u flags memory (fail x) v full (e, why) = (
  refl,
  e,
  full,
  elim why [ inl (_, le) ↦ inr (omega (arith, v.nonempty)) | inr (_, mem) ↦ inl mem ],
)

-- On a valid table `fdtable_allocFd` gives a number that was not in use: the first from fdt_nextfd on;
-- where there is none, the lowest; where all are in use, the old size of the table, which has grown. It
-- marks it with the flags and FD_ALLOCATED and a null file, sets fdt_nextfd to the number behind it,
-- leaves every other entry as it was, and keeps the shape. It fails only
-- with -EMFILE, without a change, where every entry is in use and the table cannot grow: memory has run
-- out, or twice the size does not fit `uint32`.
pub fdtable_alloc_fd-Given :
    (t : FdTable) (flags : ℕ) (k₁ k₂ : Bool)
    → IsValid t
    → Given t flags (k₁ && k₂) (fdtable_alloc_fd t flags k₁ k₂).0 (fdtable_alloc_fd t flags k₁ k₂).1
unfolding fdtable_alloc_fd
fdtable_alloc_fd-Given t flags k₁ k₂ v =
    first (find_next_fd t t.fdt_nextfd) (find_next_fd-First t t.fdt_nextfd v.next_in)
  where
    taken :
        (fd : ℕ)
        → can_use t fd ≡ true
        → fd < t.max_fds
        → Chosen t fd
        → Given t flags (k₁ && k₂) (place_fd t flags (some fd)).0 (place_fd t flags (some fd)).1
    taken fd = place_fd-Given t t flags fd (k₁ && k₂) v (λ i. (refl, refl))

    second :
        (o : Option ℕ)
        → ((i : ℕ) → t.fdt_nextfd ≤ i → i < t.max_fds → can_use t i ≡ false)
        → First (can_use t) 0 t.max_fds o
        → Given t flags (k₁ && k₂) (after_second t flags k₁ k₂ o).0 (after_second t flags k₁ k₂ o).1
    second (some fd) late (_, lt, hit, before) =
        taken fd hit lt (inr (inl (lt, late, λ i below. before i (omega arith) below)))
    second none late f =
        let n = t.max_fds * 2 % 2 ^ 32 in
        let r = fdtable_expand t n k₁ k₂ in
        after_expand-Given t r.0 flags (k₁ && k₂) r.1 v (λ i. f i (omega arith))
          (fdtable_expand-Expanded t n k₁ k₂ v)

    first :
        (o : Option ℕ)
        → First (can_use t) t.fdt_nextfd t.max_fds o
        → Given t flags (k₁ && k₂) (after_first t flags k₁ k₂ o).0 (after_first t flags k₁ k₂ o).1
    first (some fd) (from, lt, hit, before) = taken fd hit lt (inl (from, lt, before))
    first none f = second (find_next_fd t 0) f (find_next_fd-First t 0 (omega arith))
