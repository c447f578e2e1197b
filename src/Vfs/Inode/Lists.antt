-- ===== src/Vfs/Inode/Lists.antt =====
-- The lists of dirty and of clean inodes: each operation keeps an inode on at most one of them, once,
-- and a dirty one on the list of dirty inodes.
use oscomp.Common.{
  ℕ, zero, suc, true, false, Option, none, some, ◌+◌, ◌-◌, ◌≤◌, ◌==◌, ◌≡◌, Bool, List, [], ◌∷◌,
  ◌++◌, if◌then◌else◌, arith,
}
use oscomp.Common.Bits.{test_bit-set_bit, test_bit-clear_bit, test_bit-zero}
use oscomp.Common.Errno.{Ret, ok, fail}
use oscomp.Vfs.Inode.{
  list_del_init, marked_clean, Inodes, unlink, is_dirty, inode_ref, inode_unref, inode_set_dirty,
  inode_sync, unlock_new_inode,
}
use oscomp.Vfs.Inode.Super.{
  after_write, sync_dirty, sync_filesystem, superblock_create_inode, inode_free,
}

abbrev pub count : ℕ → List ℕ → ℕ
count i [] = 0
count i (j ∷ l) = if i == j then count i l + 1 else count i l

abbrev pub one_if : Bool → ℕ
one_if b = if b then 1 else 0

-- The place of one inode.
abbrev pub PlacedAt : Inodes → ℕ → Type 0
PlacedAt s i =
    (count i s.dirty_inodes ≡ one_if (is_dirty (s.inode i)))
    × (count i s.dirty_inodes + count i s.clean_inodes ≤ 1)

abbrev pub ArePlaced : Inodes → Type 0
ArePlaced s = (i : ℕ) → PlacedAt s i

pub count-unlink :
    (i j : ℕ) (l : List ℕ) → count i (unlink j l) ≡ (if j == i then count i l - 1 else count i l)
unfolding unlink
count-unlink i j [] = ground arith
count-unlink i j (k ∷ l) = ground (arith, count-unlink i j l)

count-snoc : (i j : ℕ) (l : List ℕ) → count i (l ++ j ∷ []) ≡ count i l + one_if (i == j)
count-snoc i j [] = ground arith
count-snoc i j (k ∷ l) = ground (arith, count-snoc i j l)

module _ (s : Inodes) (i : ℕ) (placed : ArePlaced s) where
  set_dirty-ArePlaced : ArePlaced (inode_set_dirty s i)
  unfolding inode_set_dirty
  set_dirty-ArePlaced j = ground (
    arith,
    placed j,
    count-unlink j i s.dirty_inodes,
    count-unlink j i s.clean_inodes,
    test_bit-set_bit (s.inode i).i_state 0 0,
  )

  sync-ArePlaced : (wait : Bool) (written : Ret) → ArePlaced (inode_sync s i wait written).0
  unfolding inode_sync
  sync-ArePlaced wait (ok n) j = ground (
    arith,
    placed j,
    count-unlink j i s.dirty_inodes,
    count-unlink j i s.clean_inodes,
    test_bit-clear_bit 64 (s.inode i).i_state 0 0 (omega arith) (omega arith),
  )
  sync-ArePlaced wait (fail e) j = ground (arith, placed j)

  unref-ArePlaced : ArePlaced (inode_unref s i)
  unfolding inode_unref
  unref-ArePlaced j = ground (
    arith,
    placed j,
    count-unlink j i s.dirty_inodes,
    count-unlink j i s.clean_inodes,
    count-snoc j i (unlink i s.clean_inodes),
  )

  ref-ArePlaced : ArePlaced (inode_ref s i).0
  unfolding inode_ref
  ref-ArePlaced j = ground (arith, placed j)

  unlock-ArePlaced : ArePlaced (unlock_new_inode s i).0
  unfolding unlock_new_inode
  unlock-ArePlaced j =
      ground
        (arith, placed j, test_bit-clear_bit 64 (s.inode i).i_state 1 0 (omega arith) (omega arith))

  free-ArePlaced : ArePlaced (inode_free s i)
  unfolding inode_free list_del_init
  free-ArePlaced j = ground (
    arith,
    placed j,
    count-unlink j i s.dirty_inodes,
    count-unlink j i s.clean_inodes,
    test_bit-zero 0,
  )

  -- The inode is on no list yet.
  create-ArePlaced :
      (memory : Bool)
      → count i s.dirty_inodes + count i s.clean_inodes ≡ 0
      → ArePlaced (superblock_create_inode s i memory).0
  unfolding superblock_create_inode inode_ref
  create-ArePlaced false new j = placed j
  create-ArePlaced true new j = ground (arith, placed j, new, test_bit-zero 0)

  -- To the list of clean inodes, whichever it was on.
  cleaned-ArePlaced : ArePlaced (marked_clean (list_del_init s i) i)
  unfolding list_del_init
  cleaned-ArePlaced j = ground (
    arith,
    placed j,
    count-unlink j i s.dirty_inodes,
    count-unlink j i s.clean_inodes,
    test_bit-clear_bit 64 (s.inode i).i_state 0 0 (omega arith) (omega arith),
  )

-- One round, if the rest of the loop keeps the lists.
after_write-ArePlaced :
    (wait : Bool) (next : Inodes → Inodes × Ret) (s : Inodes) (i : ℕ) (r : Ret)
    → ((s' : Inodes) → ArePlaced s' → ArePlaced (next s').0)
    → ArePlaced s
    → ArePlaced (after_write wait next s i r).0
unfolding after_write
after_write-ArePlaced wait next s i (fail e) ih placed = placed
after_write-ArePlaced true next s i (ok zero) ih placed =
    ih (marked_clean (list_del_init s i) i) (cleaned-ArePlaced s i placed)
after_write-ArePlaced false next s i (ok zero) ih placed = ih s placed
after_write-ArePlaced wait next s i (ok (suc n)) ih placed = placed

sync_dirty-ArePlaced :
    (wait : Bool) (written : ℕ → Ret) (l : List ℕ) (s : Inodes)
    → ArePlaced s
    → ArePlaced (sync_dirty wait written l s).0
unfolding sync_dirty
sync_dirty-ArePlaced wait written [] s placed = placed
sync_dirty-ArePlaced wait written (i ∷ l) s placed =
    after_write-ArePlaced wait (λ s'. sync_dirty wait written l s') s i (written i)
      (λ s' p. sync_dirty-ArePlaced wait written l s' p) placed

sync_filesystem-ArePlaced :
    (s : Inodes) (wait : Bool) (sync_fs : Ret) (written : Option (ℕ → Ret))
    → ArePlaced s
    → ArePlaced (sync_filesystem s wait sync_fs written).0
unfolding sync_filesystem
sync_filesystem-ArePlaced s wait (fail e) written placed = placed
sync_filesystem-ArePlaced s wait (ok zero) none placed = placed
sync_filesystem-ArePlaced s wait (ok zero) (some written) placed =
    sync_dirty-ArePlaced wait written s.dirty_inodes s placed
sync_filesystem-ArePlaced s wait (ok (suc n)) written placed = placed

-- One call of an operation. A new inode is not on a list before.
pub data Step : Inodes → Inodes → Type 0 where
  refs : (s : Inodes) (i : ℕ) → Step s (inode_ref s i).0
  unrefs : (s : Inodes) (i : ℕ) → Step s (inode_unref s i)
  dirties : (s : Inodes) (i : ℕ) → Step s (inode_set_dirty s i)
  syncs :
      (s : Inodes) (i : ℕ) (wait : Bool) (written : Ret) → Step s (inode_sync s i wait written).0
  unlocks : (s : Inodes) (i : ℕ) → Step s (unlock_new_inode s i).0
  syncs_all :
      (s : Inodes) (wait : Bool) (sync_fs : Ret) (written : Option (ℕ → Ret))
      → Step s (sync_filesystem s wait sync_fs written).0
  creates :
      (s : Inodes) (i : ℕ) (memory : Bool)
      → count i s.dirty_inodes + count i s.clean_inodes ≡ 0
      → Step s (superblock_create_inode s i memory).0
  frees : (s : Inodes) (i : ℕ) → Step s (inode_free s i)

pub data Reach (s : Inodes) : Inodes → Type 0 where
  here : Reach s s
  next : {t u : Inodes} → Reach s t → Step t u → Reach s u

Step-ArePlaced : {s t : Inodes} → Step s t → ArePlaced s → ArePlaced t
Step-ArePlaced (refs s i) p = ref-ArePlaced s i p
Step-ArePlaced (unrefs s i) p = unref-ArePlaced s i p
Step-ArePlaced (dirties s i) p = set_dirty-ArePlaced s i p
Step-ArePlaced (syncs s i wait written) p = sync-ArePlaced s i p wait written
Step-ArePlaced (unlocks s i) p = unlock-ArePlaced s i p
Step-ArePlaced (syncs_all s wait sync_fs written) p =
    sync_filesystem-ArePlaced s wait sync_fs written p
Step-ArePlaced (creates s i memory new) p = create-ArePlaced s i p memory new
Step-ArePlaced (frees s i) p = free-ArePlaced s i p

-- After any sequence of inode_ref, inode_unref, inode_setDirty, inode_sync, unlock_new_inode,
-- sync_filesystem, superblock_createInode of an inode that is on no list and __inode__free, an inode that
-- is marked dirty stands once on the list of dirty inodes and on no other list, and an inode that is not
-- stands there never and on the list of clean inodes at most once, if this holds at the start.
pub Reach-ArePlaced : {s t : Inodes} → ArePlaced s → Reach s t → ArePlaced t
Reach-ArePlaced p here = p
Reach-ArePlaced p (next r st) = Step-ArePlaced st (Reach-ArePlaced p r)
