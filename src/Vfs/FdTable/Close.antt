-- ===== src/Vfs/FdTable/Close.antt =====
-- Closing a descriptor: what becomes of the entry, of the file's count, and of the number.
use oscomp.Common.{
  ℕ, ◌<◌, ◌==◌, ◌≡◌, ◌≢◌, refl, sym, ◌∙◌, Option, none, some, get_or, set, arith, true, false,
  if◌then◌else◌, get_or-set_self, get_or-set_ne, length-set, lt→leb,
}
use oscomp.Common.Bits.{test_bit, clear_bit, test_bit-clear_bit}
use oscomp.Common.Errno.{Ret, ok, fail, ebadf}
use oscomp.Vfs.File.{Refs, file_ref, file_unref}
use oscomp.Vfs.FdTable.{
  FdTable, can_use, file_at, flags_at, fd_allocated, close_entry, fdtable_close_fd, unref_closed,
  fdtable_get_file, do_close, close_file,
}
use mathlib.Core.Option.{some-injective}
use oscomp.Vfs.File.Laws.{Dropped, file_unref-Dropped, file_ref-Raised, file_ref_freed}
use oscomp.Vfs.FdTable.Inv.{IsValid, SameEntry}

-- What closing `fd` does to a table.
pub record Closed (t t' : FdTable) (fd : ℕ) : Type 0 where
  pub free : can_use t' fd ≡ true
  pub rest : (i : ℕ) → fd ≢ i → SameEntry t t' i
  pub valid : IsValid t'
  pub size : t'.max_fds ≡ t.max_fds

cleared_flag : (x : ℕ) → test_bit (clear_bit 32 x fd_allocated) fd_allocated ≡ false
cleared_flag x =
    ground (arith, test_bit-clear_bit 32 x fd_allocated fd_allocated (omega arith) (omega arith))

module _ (t : FdTable) (fd : ℕ) (v : IsValid t) (h : fd < t.max_fds) where
  -- The flags' entry after the word `x` has lost its bit.
  flags_cleared :
      (x : ℕ)
      → test_bit (get_or (set t.fd_flags fd (clear_bit 32 x fd_allocated)) fd 0) fd_allocated
        ≡ false
  flags_cleared x =
      rw (get_or-set_self t.fd_flags fd (clear_bit 32 x fd_allocated) 0 (omega (arith, v.flags)))
        (cleared_flag x)

  pub close_entry-Closed : (o : Option ℕ) → file_at t fd ≡ o → Closed t (close_entry t fd o) fd
  unfolding close_entry
  close_entry-Closed none e = record {
    free = ground (arith, flags_cleared (flags_at t fd));
    rest = λ i ne.
        (refl, get_or-set_ne t.fd_flags fd i (clear_bit 32 (flags_at t fd) fd_allocated) 0 ne);
    valid = record {
      files = v.files;
      flags =
          omega
            (arith, v.flags, length-set t.fd_flags fd (clear_bit 32 (flags_at t fd) fd_allocated));
      next_in = v.next_in;
      nonempty = v.nonempty;
    };
    size = refl;
  }
  close_entry-Closed (some f) e = record {
    free =
        ground (
          arith,
          flags_cleared 0,
          get_or-set_self t.fd_array fd none none (omega (arith, v.files)),
        );
    rest = λ i ne. (
      get_or-set_ne t.fd_array fd i none none ne,
      get_or-set_ne t.fd_flags fd i (clear_bit 32 0 fd_allocated) 0 ne,
    );
    valid = record {
      files = omega (arith, v.files, length-set t.fd_array fd none);
      flags = omega (arith, v.flags, length-set t.fd_flags fd (clear_bit 32 0 fd_allocated));
      next_in = ground (arith, v.next_in);
      nonempty = v.nonempty;
    };
    size = refl;
  }

-- Closing a descriptor below `max_fds` that holds no file, or a file with references, returns; the
-- entry is free afterwards, the other entries and the shape are as before, and a file that stood in the
-- entry has one reference less.
pub fdtable_close_fd-Closed :
    (t : FdTable) (r : Refs) (fd : ℕ)
    → IsValid t
    → fd < t.max_fds
    → ((f : ℕ) → file_at t fd ≡ some f → 0 < r f)
    → (t' : FdTable) × (r' : Refs) × (fdtable_close_fd t r fd ≡ some (t', r'))
      × Closed t t' fd
      × Dropped r (file_at t fd) r'
unfolding fdtable_close_fd
fdtable_close_fd-Closed t r fd v h held = rw (lt→leb fd t.max_fds h) (go (file_at t fd) refl)
  where
    go :
        (o : Option ℕ)
        → file_at t fd ≡ o
        → (t' : FdTable) × (r' : Refs) × (unref_closed (close_entry t fd o) r o ≡ some (t', r'))
          × Closed t t' fd
          × Dropped r o r'
    go none e = (close_entry t fd none, r, refl, close_entry-Closed t fd v h none e, λ f. refl)
    go (some f) e =
        let (r', eq, d) = file_unref-Dropped r f (held f e) in
        (
          close_entry t fd (some f),
          r',
          rw (eq, unref_closed),
          close_entry-Closed t fd v h (some f) e,
          d,
        )

-- The results of `do_close` on an open descriptor whose file has `n` references.
abbrev pub close_result : ℕ → Ret
close_result n = if n == 1 then ok 0 else fail ebadf

do_close_steps :
    (t t' : FdTable) (r r₁ r₂ r₃ : Refs) (fd f : ℕ) (x : Ret)
    → fd < t.max_fds
    → file_at t fd ≡ some f
    → file_ref r (some f) ≡ some (r₁, some f)
    → fdtable_close_fd t r₁ fd ≡ some (t', r₂)
    → file_unref r₂ (some f) ≡ some (r₃, x)
    → do_close t r fd ≡ some (t', r₃, x)
unfolding do_close fdtable_get_file close_file
do_close_steps t t' r r₁ r₂ r₃ fd f x h e got closed gone =
    let found : fdtable_get_file t r fd ≡ some (r₁, some f) = rw (lt→leb fd t.max_fds h, e) got in
    rw (found, do_close) (rw (closed, close_file) (rw (gone, close_file) refl))

-- Closing a descriptor with an open file drops the one reference that the entry held, frees the entry
-- and no other, and keeps the shape. It returns 0 if that reference was the last one, and -EBADF if
-- the file has others.
pub do_close-Closed :
    (t : FdTable) (r : Refs) (fd f : ℕ)
    → IsValid t
    → fd < t.max_fds
    → file_at t fd ≡ some f
    → 0 < r f
    → (t' : FdTable) × (r' : Refs) × (do_close t r fd ≡ some (t', r', close_result (r f)))
      × Closed t t' fd
      × Dropped r (some f) r'
do_close-Closed t r fd f v h e held =
    let (r₁, got, up) = file_ref-Raised r f held in
    let alive : (g : ℕ) → file_at t fd ≡ some g → 0 < r₁ g = λ g p.
      (let same : g ≡ f = some-injective _ _ (sym p ∙ e) in rw same (ground (arith, up f))) in
    let (t', r₂, closed, c, down) = fdtable_close_fd-Closed t r₁ fd v h alive in
    let down' : Dropped r₁ (some f) r₂ = rw e at down in
    let count : r₂ f ≡ r f = ground (arith, up f, down' f) in
    let (r₃, gone, last) = file_unref-Dropped r₂ f (rw count held) in
    (
      t',
      r₃,
      rw (← count) (do_close_steps t t' r r₁ r₂ r₃ fd f _ h e got closed gone),
      c,
      λ g. ground (arith, up g, down' g, last g),
    )

-- Closing a descriptor whose file has been freed panics in `file_ref`.
pub do_close_freed :
    (t : FdTable) (r : Refs) (fd f : ℕ)
    → fd < t.max_fds
    → file_at t fd ≡ some f
    → r f ≡ 0
    → do_close t r fd ≡ none
unfolding do_close fdtable_get_file
do_close_freed t r fd f h e gone =
    let found : fdtable_get_file t r fd ≡ none =
      rw (lt→leb fd t.max_fds h, e) (file_ref_freed r f gone) in
    rw (found, do_close)
