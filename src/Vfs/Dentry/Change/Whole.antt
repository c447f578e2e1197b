-- ===== src/Vfs/Dentry/Change/Whole.antt =====
-- dentry_rename as a whole keeps the counts.
use oscomp.Common.{
  ℕ, ◌+◌, ◌≤◌, ◌<◌, ◌≡◌, ◌≢◌, inl, inr, refl, ◌∙◌, ap, Bool, true, false, Option, none, some, List,
  Bool-cases, arith, get_or-set_self, get_or-set_ne, ==_ne,
}
use oscomp.Common.Bits.{test_bit}
use oscomp.Vfs.Dentry.{Dentry, Dcache, dentry_at, put, leave_hash, leave_parent, dcache_hashed}
use oscomp.Vfs.Dentry.Refs.{held, live, in_range, leave_hash-Alike}
use oscomp.Vfs.Inode.Lists.{count}
use oscomp.Vfs.Dentry.Table.{flag_of, IsTable, leave_hash-Kept, put_out-IsTable}
use oscomp.Vfs.Dentry.Acquire.Counts.{IsSound, counted_ref, level-IsSound}
use oscomp.Vfs.Dentry.Change.{
  unhashed, parent_or, parent_of, reparented, renamed, rename_at, dentry_rename,
}
use oscomp.Vfs.Dentry.Change.Rename.{Alike-IsSound, child_held, level_live}

referenced : Dcache → ℕ → Dentry → Dcache
referenced c p d = put c p (some (record d { d_refcount = d.d_refcount + 1 }))

module _ (fuel : ℕ) (ext : ℕ → ℕ) (c : Dcache) (a old p : ℕ) (sound : IsSound ext c.dentries)
    (enough : live c.dentries ≤ fuel) (old_apart : old ≢ a) (apart : p ≢ a)
    (needed : 0 < held p c.dentries) where
  c1 : Dcache
  c1 = leave_parent c a true (some old)

unhashed-same :
    (d : Dentry) → ((unhashed d).d_parent ≡ d.d_parent) × ((unhashed d).d_refcount ≡ d.d_refcount)
unhashed-same d = elim (Bool-cases (test_bit d.d_flags dcache_hashed)) [
  | inl h ↦ rw h (refl, refl)
  | inr h ↦ rw h (refl, refl)
]

leave_hash_at :
    (c : Dcache) (a : ℕ) (b : Bool) (q : ℕ) → dentry_at (leave_hash c a b) q ≡ dentry_at c q
leave_hash_at c a true q = refl
leave_hash_at c a false q = refl

module _ (fuel : ℕ) (ext : ℕ → ℕ) (c : Dcache) (a b old p : ℕ) (d e : Dentry) (n : List ℕ)
    (sound : IsSound ext c.dentries) (enough : live c.dentries ≤ fuel)
    (here : dentry_at c a ≡ some d) (other : dentry_at c b ≡ some e)
    (points : d.d_parent ≡ some old) (listed : d.in_parent ≡ true) (target : e.d_parent ≡ some p)
    (new_name : e.d_name ≡ some n) (different : a ≢ b) (old_apart : old ≢ a) (apart : p ≢ a) where
  unfoldable pub left : Dcache
  left = leave_hash c a (test_bit d.d_flags dcache_hashed)

  unfoldable pub freed : Dcache
  unfolding left
  freed = put left a (some (unhashed d))

  pub left_at : (q : ℕ) → dentry_at left q ≡ dentry_at c q
  unfolding left
  left_at q = leave_hash_at c a (test_bit d.d_flags dcache_hashed) q

  left-IsSound : IsSound ext left.dentries × (live left.dentries ≤ fuel)
  unfolding left
  left-IsSound =
      let alike = leave_hash-Alike c a (test_bit d.d_flags dcache_hashed) in
      (Alike-IsSound ext c.dentries left.dentries alike sound, rw alike.2 enough)

  freed-IsSound : IsSound ext freed.dentries × (live freed.dentries ≤ fuel)
  unfolding freed
  freed-IsSound =
      let (s, m) = left-IsSound in
      let there = left_at a ∙ here in
      let (par, cnt) = unhashed-same d in
      (
        level-IsSound ext left.dentries s a d (unhashed d) there par cnt,
        rw (level_live ext left.dentries s a d (unhashed d) there par cnt) m,
      )

  pub freed_self : dentry_at freed a ≡ some (unhashed d)
  unfolding freed
  freed_self =
      get_or-set_self left.dentries a (some (unhashed d)) none
        (in_range left.dentries a d (left_at a ∙ here))

  pub freed_other : dentry_at freed b ≡ some e
  unfolding freed
  freed_other =
      get_or-set_ne left.dentries a b (some (unhashed d)) none different ∙ left_at b ∙ other

  needed : 0 < held p freed.dentries
  needed =
      child_held freed.dentries b p e freed_other target
        (counted_ref ext freed.dentries freed-IsSound.0 b e e freed_other refl).1

  pub steps : dentry_rename fuel c a b true ≡ renamed a b p true (reparented fuel freed a d old p)
  unfolding dentry_rename rename_at freed left
  steps =
      let first : dentry_rename fuel c a b true
          ≡ rename_at fuel c a b true (dentry_at c a) (dentry_at c b) =
        rw (==_ne a b different) refl in
      first
      ∙ ap (λ o. rename_at fuel c a b true o (dentry_at c b)) here
      ∙ ap (rename_at fuel c a b true (some d)) other
      ∙ ap
          (λ x.
            renamed a b (parent_or b x) true
              (reparented fuel freed a d (parent_of a d) (parent_or b x)))
          target
      ∙ ap (λ x. renamed a b p true (reparented fuel freed a d (parent_or a x) p)) points

  module _ (table : IsTable c) where
    -- The dentry has left the table.
    pub freed-IsTable : IsTable freed × (count a freed.hashed ≡ 0)
    unfolding freed left
    freed-IsTable =
        let flag : flag_of (dentry_at c a) ≡ flag_of (some d) = ap flag_of here in
        let (k, out) = leave_hash-Kept c a (test_bit d.d_flags dcache_hashed) table (omega arith) in
        (put_out-IsTable left a (some (unhashed d)) out k.0, out)
