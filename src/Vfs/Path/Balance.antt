-- ===== src/Vfs/Path/Balance.antt =====
-- The steps of a walk keep the references in balance.
use oscomp.Common.{
  ℕ, ◌<◌, ◌≡◌, refl, sym, ◌∙◌, ap, true, false, Bool-cases, inl, inr, Option, none, some, List,
  length, if◌then◌else◌, arith,
}
use oscomp.Common.Chain.{◌>>=◌}
use oscomp.Common.Errno.{Errno, enomem, enotdir}
use mathlib.Core.Path.{subst}
use oscomp.Vfs.Inode.{inode_ref}
use oscomp.Vfs.Dentry.{Dentry, Dcache, dentry_at, released}
use oscomp.Vfs.Dentry.Acquire.{Acquired, got, null, error, any, dentry_acquire, is_stale}
use oscomp.Vfs.Dentry.Acquire.Counts.{plus, IsSafe}
use oscomp.Vfs.Dentry.Acquire.Stages.{AcquiredFrom, dentry_acquire-AcquiredFrom}
use oscomp.Vfs.Dentry.Change.Instantiate.{
  inode_ref-op, inode_ref-there, dentry_instantiate-IsSound, TableBy, dentry_instantiate-IsTable,
}
use oscomp.Vfs.Mount.{Mount, Tree, drop}
use oscomp.Vfs.Mount.Held.{HeldMount, mount_unref-HeldMount}
use oscomp.Vfs.Path.{
  World, Walked, at_path, stopped, Next, give_up, moved_down, filled, filled_with, filled_from,
  with_number, looked, searched, inode_of, lookup_of, acquired, down,
}
use oscomp.Vfs.Path.Holds.{live-le-length, held_there, drop-IsSafe, swap-IsSafe}

-- A walk has returned, with the counts of dentries and the hash table right: with a path, whose dentry and mount have one reference more than before, or with
-- an error, and no references.
abbrev pub Balanced : (ℕ → ℕ) → Option ℕ → List (Option Mount) → Option (Tree × Walked) → Type 0
Balanced ext m before none = ⊥
Balanced ext m before (some (s, stopped e)) = IsSafe ext s.dcache × (s.mounts ≡ before)
Balanced ext m before (some (s, at_path b m')) =
    (m' ≡ m) × IsSafe (plus ext b) s.dcache × HeldMount m before s.mounts

-- What a file system's `lookup` leaves: a dentry is returned with its inode, and with a reference.
abbrev pub FoundFrom : (ℕ → ℕ) → Dcache × Acquired → Type 0
FoundFrom ext (c, null) = IsSafe ext c
FoundFrom ext (c, error e) = IsSafe ext c
FoundFrom ext (c, got x) =
    IsSafe (plus ext x) c
    × ((d : Dentry) × (j : ℕ) × (dentry_at c x ≡ some d) × (d.d_inode ≡ some j))

abbrev pub LooksUp : World → Type 0
LooksUp w =
    (i : ℕ) (f : Dcache → ℕ → Dcache × Acquired) (ext : ℕ → ℕ) (c : Dcache) (b : ℕ)
    → w.lookup i ≡ some f
    → IsSafe ext c
    → 0 < ext b
    → FoundFrom ext (f c b)

-- The files systems and kmalloc behave, and mounts are not entered on the way down.
pub record IsCalm (w : World) : Type 0 where
  pub stays : w.automount ≡ false
  pub copies : (k : ℕ) → w.copy k ≡ true
  pub fresh : (a : ℕ) → is_stale w.fs a ≡ false
  pub looks_up : LooksUp w

lookup_of-found :
    (w : World) (c : Dcache) (j i : Option ℕ) (k : ℕ) (f : Dcache → ℕ → Dcache × Acquired)
    → lookup_of w c j i ≡ some (k, f)
    → w.lookup k ≡ some f
lookup_of-found w c (some j) i k f e = absurd (cc)
lookup_of-found w c none none k f e = absurd (cc)
lookup_of-found w c none (some i) k f e = elim (Bool-cases (c.inodes.inode i).i_op) [
  | inl good ↦
      numbered i (w.lookup i) refl
        (ap (λ b. if b then with_number i (w.lookup i) else none) (sym good) ∙ e)
  | inr bad ↦ absurd (cc (ap (λ b. if b then with_number i (w.lookup i) else none) (sym bad) ∙ e))
]
  where
    numbered :
        (i : ℕ) (o : Option (Dcache → ℕ → Dcache × Acquired))
        → w.lookup i ≡ o
        → with_number i o ≡ some (k, f)
        → w.lookup k ≡ some f
    numbered i none e h = absurd (cc)
    numbered i (some g) e h = cc

-- The dentry has the inode that is found, or stays without one if that is bad.
filled-IsSafe :
    (ext : ℕ → ℕ) (c : Dcache) (b j : ℕ)
    → IsSafe ext c
    → 0 < ext b
    → (c' : Dcache) × (filled c b j ≡ some c') × IsSafe ext c'
unfolding filled
filled-IsSafe ext c b j sound held =
    let c1 = record c { inodes = (inode_ref c.inodes j).0 } in
    elim (Bool-cases (inode_ref c.inodes j).1) [
      | inr bad ↦ (c1, rw bad refl, sound)
      | inl good ↦
          let (d, there) = held_there ext c b sound held in
          let (c', e, s) =
            dentry_instantiate-IsSound ext c1 b j d sound.0 there
              (inode_ref-op c.inodes j j ∙ sym (inode_ref-there c.inodes j) ∙ good) in
          (
            c',
            rw good (ap released e),
            (s, subst TableBy e (dentry_instantiate-IsTable c1 b j sound.1)),
          )
    ]

pub give_up-Balanced :
    (ext : ℕ → ℕ) (m : Option ℕ) (before : List (Option Mount)) (s : Tree) (a : ℕ) (e : Errno)
    → IsSafe (plus ext a) s.dcache
    → HeldMount m before s.mounts
    → Balanced ext m before (give_up s a m e)
unfolding give_up
give_up-Balanced ext m before s a e sound kept =
    let (c, dropped, s') = drop-IsSafe ext s a sound in
    rw (dropped, mount_unref-HeldMount (record s { dcache = c }) m before kept) (s', refl)

module _ (w : World) (ext : ℕ → ℕ) (m : Option ℕ) (before : List (Option Mount)) (calm : IsCalm w)
    (k : ℕ) (next : Next)
    (ih : (s : Tree) (a : ℕ)
      → IsSafe (plus ext a) s.dcache
      → HeldMount m before s.mounts
      → Balanced ext m before (next s a m)) where
  moved_down-Balanced :
      (s : Tree) (a b : ℕ)
      → IsSafe (plus (plus ext a) b) s.dcache
      → HeldMount m before s.mounts
      → Balanced ext m before (moved_down w next s a m b)
  unfolding moved_down
  moved_down-Balanced s a b sound kept =
      let (c, dropped, s') = drop-IsSafe (plus ext b) s a (swap-IsSafe ext a b s.dcache sound) in
      rw (dropped, calm.stays) (ih (record s { dcache = c }) b s' kept)

  -- The dentry that was found is released again.
  filled_from-IsSafe :
      (ext' : ℕ → ℕ) (s : Tree) (b x : ℕ)
      → FoundFrom ext' (s.dcache, got x)
      → 0 < ext' b
      → (c : Dcache) × (filled_from s b x (dentry_at s.dcache x) ≡ some (record s { dcache = c }))
        × IsSafe ext' c
  unfolding filled_from
  filled_from-IsSafe ext' s b x (sound, (d, j, there, inode)) held =
      let (c, e, s1) = filled-IsSafe (plus ext' x) s.dcache b j sound (ground arith) in
      let (c', e', s2) = drop-IsSafe ext' (record s { dcache = c }) x s1 in
      (
        c',
        ap (filled_from s b x) there
            ∙ ap (filled_with s b x) inode
            ∙ ap (λ o. o >>= (λ c''. drop (record s { dcache = c'' }) x)) e
            ∙ e',
        s2,
      )

  searched-Balanced :
      (s : Tree) (a b : ℕ) (r : Dcache × Acquired)
      → FoundFrom (plus (plus ext a) b) r
      → HeldMount m before s.mounts
      → Balanced ext m before (searched w next s a m b r)
  unfolding searched
  searched-Balanced s a b (c, null) found kept =
      moved_down-Balanced (record s { dcache = c }) a b found kept
  searched-Balanced s a b (c, error e) found kept =
      let (c', dropped, s') = drop-IsSafe (plus ext a) (record s { dcache = c }) b found in
      rw dropped (give_up-Balanced ext m before (record s { dcache = c' }) a e s' kept)
  searched-Balanced s a b (c, got x) found kept =
      let (c', e, s') =
        filled_from-IsSafe (plus (plus ext a) b) (record s { dcache = c }) b x found
          (ground arith) in
      rw e (moved_down-Balanced (record s { dcache = c' }) a b s' kept)

  looked-Balanced :
      (s : Tree) (a b : ℕ) (j i : Option ℕ) (o : Option (ℕ × (Dcache → ℕ → Dcache × Acquired)))
      → lookup_of w s.dcache j i ≡ o
      → IsSafe (plus (plus ext a) b) s.dcache
      → HeldMount m before s.mounts
      → Balanced ext m before (looked w next s a m b o)
  unfolding looked
  looked-Balanced s a b j i none e sound kept = moved_down-Balanced s a b sound kept
  looked-Balanced s a b j i (some (x, f)) e sound kept =
      elim (Bool-cases (w.fs.is_dir (s.dcache.inodes.inode x).i_mode)) [
        | inl dir ↦ rw dir (
            searched-Balanced s a b (f s.dcache b)
              (calm.looks_up x f (plus (plus ext a) b) s.dcache b
                (lookup_of-found w s.dcache j i x f e) sound (ground arith))
              kept)
        | inr other ↦ rw other (searched-Balanced s a b (s.dcache, error enotdir) sound kept)
      ]

  acquired-Balanced :
      (s : Tree) (a : ℕ) (r : Option (Dcache × Acquired))
      → AcquiredFrom (plus ext a) r
      → HeldMount m before s.mounts
      → Balanced ext m before (acquired w next s a m r)
  unfolding acquired
  acquired-Balanced s a none bad kept = bad
  acquired-Balanced s a (some (c, null)) sound kept =
      give_up-Balanced ext m before (record s { dcache = c }) a enomem sound kept
  acquired-Balanced s a (some (c, error e)) sound kept =
      give_up-Balanced ext m before (record s { dcache = c }) a e sound kept
  acquired-Balanced s a (some (c, got b)) sound kept =
      let j = inode_of (dentry_at c b) in
      let i = inode_of (dentry_at c a) in
      looked-Balanced (record s { dcache = c }) a b j i (lookup_of w c j i) refl sound kept

  pub down-Balanced :
      (s : Tree) (a : ℕ) (n : List ℕ)
      → IsSafe (plus ext a) s.dcache
      → HeldMount m before s.mounts
      → Balanced ext m before (down w k next n s a m)
  unfolding down
  down-Balanced s a n sound kept = rw (calm.copies k) (
      acquired-Balanced s a
        (dentry_acquire (length s.dcache.dentries) w.fs s.dcache a n any true true true
          (w.memory k))
        (dentry_acquire-AcquiredFrom (length s.dcache.dentries) w.fs s.dcache a n any true true
          (w.memory k) (plus ext a) sound (ground arith) (live-le-length s.dcache.dentries)
          (λ x. calm.fresh x))
        kept)
