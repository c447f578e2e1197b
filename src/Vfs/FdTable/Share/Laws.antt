-- ===== src/Vfs/FdTable/Share/Laws.antt =====
-- What a copied table holds, and that it shares files without counting the references.
use mathlib.Core.Option.{some-injective}
use oscomp.Common.{
  ℕ, zero, suc, ◌+◌, ◌≤◌, ◌<◌, ◌==◌, ltb, ◌≡◌, refl, sym, ap, ◌∙◌, Option, none, some, length,
  arith, Bool, ◌&&◌, if◌then◌else◌, get_or-set_self, get_or-set_ne, length-set, get_or-replicate,
  get_or_past, Bool-cases, inl, inr, ◌⊎◌, true, false,
}
use native.Mathlib.Decide.{ℕ_discrete, dec_lt}
use oscomp.Common.Errno.{Ret, ok, fail}
use oscomp.Vfs.File.{Refs}
use oscomp.Vfs.FdTable.{
  FdTable, fdtable_alloc, fdtable_expand, fdtable_init_size, file_at, flags_at, is_null, do_close,
  empty_table,
}
use oscomp.Vfs.FdTable.Inv.{
  IsValid, SameEntry, Expanded, fdtable_expand-Expanded, empty_table-IsValid, fdtable_alloc-eq,
}
use oscomp.Vfs.FdTable.Close.{do_close-Closed, do_close_freed, close_result}
use oscomp.Vfs.FdTable.Share.{
  copy_entry, copy_entries, copy_into, copy_fresh, grow_for, with_next, fdtable_copy,
}

-- Entry `j` of the copy has the file of `old`, and its flags if there is one.
abbrev pub CopiedEntry : FdTable → FdTable → ℕ → Type 0
CopiedEntry old new j =
    (file_at new j ≡ file_at old j)
    × (flags_at new j ≡ (if is_null (file_at old j) then 0 else flags_at old j))

-- The loop has copied the entries below `i`, and the others are empty.
record Copying (old new : FdTable) (i size : ℕ) : Type 0 where
  done : (j : ℕ) → j < i → CopiedEntry old new j
  todo : (j : ℕ) → i ≤ j → (file_at new j ≡ none) × (flags_at new j ≡ 0)
  files : length new.fd_array ≡ size
  flags : length new.fd_flags ≡ size
  most : new.max_fds ≡ size

copy_entry-Copying :
    (old new : FdTable) (i size : ℕ)
    → i < size
    → Copying old new i size
    → Copying old (copy_entry old new i (file_at old i)) (i + 1) size
unfolding copy_entry
copy_entry-Copying old new i size h c = go (file_at old i) refl
  where
    go : (o : Option ℕ) → file_at old i ≡ o → Copying old (copy_entry old new i o) (i + 1) size
    go none e = record {
      done = λ j lt. elim (ℕ_discrete j i) [
        | yes p ↦ rw (p, e) (c.todo i (omega arith))
        | no p ↦ c.done j (omega arith)
      ];
      todo = λ j le. c.todo j (omega arith);
      files = c.files;
      flags = c.flags;
      most = c.most;
    }
    go (some f) e = record {
      done = λ j lt. elim (ℕ_discrete j i) [
        | yes p ↦
            rw (p, e)
              (
                get_or-set_self new.fd_array i (some f) none (omega (arith, c.files)),
                get_or-set_self new.fd_flags i (flags_at old i) 0 (omega (arith, c.flags)),
              )
        | no p ↦
            let same = c.done j (omega arith) in
            (
              get_or-set_ne new.fd_array i j (some f) none (λ q. p (sym q)) ∙ same.0,
              get_or-set_ne new.fd_flags i j (flags_at old i) 0 (λ q. p (sym q)) ∙ same.1,
            )
      ];
      todo = λ j le.
          let same = c.todo j (omega arith) in
          (
            get_or-set_ne new.fd_array i j (some f) none (omega arith) ∙ same.0,
            get_or-set_ne new.fd_flags i j (flags_at old i) 0 (omega arith) ∙ same.1,
          );
      files = length-set new.fd_array i (some f) ∙ c.files;
      flags = length-set new.fd_flags i (flags_at old i) ∙ c.flags;
      most = c.most;
    }

copy_entries-Copying :
    (old new : FdTable) (n i j size : ℕ)
    → i + n ≡ j
    → j ≤ size
    → Copying old new i size
    → Copying old (copy_entries old new n i) j size
unfolding copy_entries
copy_entries-Copying old new zero i j size e h c = let same : i ≡ j = omega arith in rw (← same) c
copy_entries-Copying old new (suc n) i j size e h c =
    copy_entries-Copying old (copy_entry old new i (file_at old i)) n (i + 1) j size (omega arith) h
      (copy_entry-Copying old new i size (omega arith) c)

-- A table whose entries are all empty, large enough for those of `old`.
record Room (old u : FdTable) : Type 0 where
  valid : IsValid u
  start : Copying old u 0 u.max_fds
  enough : old.max_fds ≤ u.max_fds

empty_Copying :
    (old u : FdTable) (n : ℕ)
    → ((j : ℕ) → SameEntry empty_table u j)
    → length u.fd_array ≡ n
    → length u.fd_flags ≡ n
    → u.max_fds ≡ n
    → Copying old u 0 n
empty_Copying old u n same p q e = record {
  done = λ j lt. absurd (omega arith);
  todo = λ j le. (
    (same j).0 ∙ get_or-replicate {A = Option ℕ} fdtable_init_size j none,
    (same j).1 ∙ get_or-replicate {A = ℕ} fdtable_init_size j 0,
  );
  files = p;
  flags = q;
  most = e;
}

grown-room_lem :
    (old u : FdTable) (r : ℕ) (memory : Bool)
    → Expanded empty_table old.max_fds memory u (ok r)
    → Room old u
grown-room_lem old u r memory (_, _, _, size, _, valid, same) = record {
  valid = valid;
  start = empty_Copying old u u.max_fds same valid.files valid.flags refl;
  enough = omega arith;
}

grow_for-Room :
    (old u : FdTable) (k₁ k₂ : Bool) (r : ℕ)
    → grow_for old empty_table k₁ k₂ ≡ (u, ok r)
    → Room old u
unfolding grow_for
grow_for-Room old u k₁ k₂ r h = elim (Bool-cases (ltb fdtable_init_size old.max_fds)) [
  | inl t ↦
      let grown : fdtable_expand empty_table old.max_fds k₁ k₂ ≡ (u, ok r) = rw t at h in
      let kept = fdtable_expand-Expanded empty_table old.max_fds k₁ k₂ empty_table-IsValid in
      grown-room_lem old u r (k₁ && k₂) (rw grown at kept)
  | inr t ↦
      let plain : (empty_table, ok 0) ≡ (u, ok r) = rw t at h in
      let same : empty_table ≡ u = ap (λ p. p.0) plain in
      rw (← same) (record {
        valid = empty_table-IsValid;
        start = empty_Copying old empty_table fdtable_init_size (λ j. (refl, refl)) refl refl refl;
        enough = ground arith;
      })
]

copy_into-Copied :
    (old u new : FdTable)
    → IsValid old
    → Room old u
    → with_next (copy_entries old u old.max_fds 0) old.fdt_nextfd ≡ new
    → ((j : ℕ) → CopiedEntry old new j)
      × IsValid new
      × (old.max_fds ≤ new.max_fds)
      × (new.fdt_nextfd ≡ old.fdt_nextfd)
copy_into-Copied old u new v room h =
    let c =
      copy_entries-Copying old u old.max_fds 0 old.max_fds u.max_fds (omega arith) room.enough
        room.start in
    rw (← h) (
      λ j. elim (dec_lt j old.max_fds) [
        | yes p ↦ c.done j p
        | no p ↦
            let rest = c.todo j (omega arith) in
            rw (get_or_past old.fd_array j none (omega (arith, v.files))) rest
      ],
      record {
        files = c.files ∙ sym c.most;
        flags = c.flags ∙ sym c.most;
        next_in = omega (arith, v.next_in, room.enough, c.most);
        nonempty = omega (arith, room.valid.nonempty, c.most);
      },
      omega (arith, room.enough, c.most),
      refl,
    )

-- The copy of a valid table with a reference has, at each number, the file of the original, and its
-- flags if there is one; it is valid and has the next number and at least the size of the original.
pub fdtable_copy-Copied :
    (old new : FdTable) (k₁ k₂ k₃ k₄ k₅ : Bool)
    → IsValid old
    → fdtable_copy old k₁ k₂ k₃ k₄ k₅ ≡ some new
    → ((j : ℕ) → CopiedEntry old new j)
      × IsValid new
      × (old.max_fds ≤ new.max_fds)
      × (new.fdt_nextfd ≡ old.fdt_nextfd)
unfolding fdtable_copy
fdtable_copy-Copied old new k₁ k₂ k₃ k₄ k₅ v h = elim (Bool-cases (old.fdt_refcount == 0)) [
  | inl t ↦ absurd (ground arith)
  | inr t ↦ from_alloc (fdtable_alloc k₁ k₂ k₃) (fdtable_alloc-eq k₁ k₂ k₃) (rw t at h)
]
  where
    from_grown :
        (p : FdTable × Ret)
        → grow_for old empty_table k₄ k₅ ≡ p
        → copy_into old p ≡ some new
        → ((j : ℕ) → CopiedEntry old new j)
          × IsValid new
          × (old.max_fds ≤ new.max_fds)
          × (new.fdt_nextfd ≡ old.fdt_nextfd)
    from_grown (u, ok r) e g =
        copy_into-Copied old u new v (grow_for-Room old u k₄ k₅ r e) (some-injective _ _ g)
    from_grown (u, fail x) e g = absurd (ground arith)

    from_alloc :
        (o : Option FdTable)
        → ((t : FdTable) → o ≡ some t → t ≡ empty_table)
        → copy_fresh old k₄ k₅ o ≡ some new
        → ((j : ℕ) → CopiedEntry old new j)
          × IsValid new
          × (old.max_fds ≤ new.max_fds)
          × (new.fdt_nextfd ≡ old.fdt_nextfd)
    from_alloc none e g = absurd (ground arith)
    from_alloc (some t) e g =
        from_grown (grow_for old empty_table k₄ k₅) refl (rw (e t refl, copy_fresh) at g)

-- A growth that has memory succeeds.
copied_grown :
    (old : FdTable) (k₄ k₅ : Bool) (p : FdTable × Ret)
    → fdtable_init_size < old.max_fds
    → (k₄ && k₅) ≡ true
    → Expanded empty_table old.max_fds (k₄ && k₅) p.0 p.1
    → (new : FdTable) × (copy_into old p ≡ some new)
unfolding copy_into
copied_grown old k₄ k₅ (u, ok r) large memory e =
    (with_next (copy_entries old u old.max_fds 0) old.fdt_nextfd, refl)
copied_grown old k₄ k₅ (u, fail x) large memory (e, why) = elim why [
  | inl (_, le) ↦ absurd (omega arith)
  | inr (_, mem) ↦ absurd (cc)
]

-- The table that fdtable_copy fills, where memory suffices.
copied_into :
    (old : FdTable) (k₄ k₅ : Bool)
    → ((k₄ && k₅) ≡ true) ⊎ (old.max_fds ≤ fdtable_init_size)
    → (new : FdTable) × (copy_into old (grow_for old empty_table k₄ k₅) ≡ some new)
unfolding copy_into grow_for
copied_into old k₄ k₅ enough = elim (Bool-cases (ltb fdtable_init_size old.max_fds)) [
  | inr small ↦ (
    with_next (copy_entries old empty_table old.max_fds 0) old.fdt_nextfd,
    ap
        (λ b.
          copy_into old
            (if b then fdtable_expand empty_table old.max_fds k₄ k₅ else (empty_table, ok 0)))
        small,
  )
  | inl large ↦ elim enough [
    | inr few ↦ absurd (ground arith)
    | inl memory ↦
        let kept = fdtable_expand-Expanded empty_table old.max_fds k₄ k₅ empty_table-IsValid in
        let (new, e) =
          copied_grown old k₄ k₅ (fdtable_expand empty_table old.max_fds k₄ k₅) (ground arith)
            memory kept in
        (
          new,
          ap
                (λ b.
                  copy_into old (
                    if b
                    then fdtable_expand empty_table old.max_fds k₄ k₅
                    else (empty_table, ok 0)))
                large
              ∙ e,
        )
  ]
]

-- If the table has a reference, and memory suffices for the new one, and for its growth where the
-- original is larger than 16 entries, fdtable_copy of a valid table succeeds. The copy has, at each
-- number, the file of the original, and its flags if there is one; it is valid and has the next number
-- and at least the size of the original.
pub fdtable_copy-Copies :
    (old : FdTable) (k₁ k₂ k₃ k₄ k₅ : Bool)
    → IsValid old
    → 0 < old.fdt_refcount
    → (k₁ && k₂ && k₃) ≡ true
    → ((k₄ && k₅) ≡ true) ⊎ (old.max_fds ≤ fdtable_init_size)
    → (new : FdTable) × (fdtable_copy old k₁ k₂ k₃ k₄ k₅ ≡ some new)
      × ((j : ℕ) → CopiedEntry old new j)
      × IsValid new
      × (old.max_fds ≤ new.max_fds)
      × (new.fdt_nextfd ≡ old.fdt_nextfd)
unfolding fdtable_copy copy_fresh fdtable_alloc
fdtable_copy-Copies old k₁ k₂ k₃ k₄ k₅ v pos memory enough =
    let (new, e) = copied_into old k₄ k₅ enough in
    let held : (old.fdt_refcount == 0) ≡ false = ground arith in
    let h : fdtable_copy old k₁ k₂ k₃ k₄ k₅ ≡ some new = rw (held, memory) e in
    let (same, valid, size, next) = fdtable_copy-Copied old new k₁ k₂ k₃ k₄ k₅ v h in
    (new, h, same, valid, size, next)

-- After a copy both tables hold the file, but its count is as before: where that was 1, closing the
-- descriptor in the copy succeeds and frees the file, and closing it in the original panics.
pub do_close-fdtable_copy :
    (old new : FdTable) (r : Refs) (fd f : ℕ) (k₁ k₂ k₃ k₄ k₅ : Bool)
    → IsValid old
    → fd < old.max_fds
    → file_at old fd ≡ some f
    → r f ≡ 1
    → fdtable_copy old k₁ k₂ k₃ k₄ k₅ ≡ some new
    → (t' : FdTable) × (r' : Refs) × (do_close new r fd ≡ some (t', r', ok 0))
      × (r' f ≡ 0)
      × (do_close old r' fd ≡ none)
do_close-fdtable_copy old new r fd f k₁ k₂ k₃ k₄ k₅ v h e one copy =
    let (same, valid, size, next) = fdtable_copy-Copied old new k₁ k₂ k₃ k₄ k₅ v copy in
    let (t', r', closed, c, down) =
      do_close-Closed new r fd f valid (omega arith) ((same fd).0 ∙ e) (omega arith) in
    let gone : r' f ≡ 0 = ground (arith, down f) in
    (
      t',
      r',
      closed ∙ ap (λ x. some (t', r', x)) (ap close_result one),
      gone,
      do_close_freed old r' fd f h e gone,
    )
