-- ===== src/Vfs/Inode/Super.antt =====
-- What changes the lists of inodes of a superblock from outside of an inode's own operations:
-- sync_filesystem and superblock_createInode of kernel/fs/vfs/superblock.c, and __inode__free of
-- kernel/fs/vfs/inode.c. The operations of the file system are taken not to change the lists.
use oscomp.Common.{
  ℕ, zero, suc, Bool, true, false, Option, none, some, List, [], ◌∷◌, if◌then◌else◌,
}
use oscomp.Common.Errno.{Ret, ok, fail}
use oscomp.Vfs.Inode.{Inode, Inodes, with_inode, list_del_init, marked_clean, inode_ref}

-- `write_inode` of one inode has returned. A failure ends the loop.
unfoldable pub after_write : Bool → (Inodes → Inodes × Ret) → Inodes → ℕ → Ret → Inodes × Ret
unfolding list_del_init
after_write wait next s i (fail e) = (s, fail e)
after_write wait next s i (ok zero) = next (if wait then marked_clean (list_del_init s i) i else s)
after_write wait next s i (ok (suc n)) = (s, ok (suc n))

-- The loop over the inodes that are dirty at its start. `written` is `write_inode`.
unfoldable pub sync_dirty : Bool → (ℕ → Ret) → List ℕ → Inodes → Inodes × Ret
unfolding after_write
sync_dirty wait written [] s = (s, ok 0)
sync_dirty wait written (i ∷ l) s =
    after_write wait (λ s'. sync_dirty wait written l s') s i (written i)

abbrev pub sync_inodes : Bool → Option (ℕ → Ret) → Inodes → Inodes × Ret
unfolding sync_dirty after_write
sync_inodes wait none s = (s, ok 0)
sync_inodes wait (some written) s = sync_dirty wait written s.dirty_inodes s

-- `sync_fs` is what that operation returns, 0 where there is none.
unfoldable pub sync_filesystem : Inodes → Bool → Ret → Option (ℕ → Ret) → Inodes × Ret
unfolding sync_inodes
sync_filesystem s wait (fail e) written = (s, fail e)
sync_filesystem s wait (ok zero) written = sync_inodes wait written s
sync_filesystem s wait (ok (suc n)) written = (s, ok (suc n))

-- All of the memory is cleared, the operations as well.
abbrev pub cleared : Inode
cleared = record {
  i_mode = 0;
  i_uid = 0;
  i_gid = 0;
  i_size = 0;
  i_nlink = 0;
  i_state = 0;
  i_refcount = 0;
  i_op = false;
}

-- `i` is the new inode, `memory` whether there is room for it. inode_ref, which refuses an inode
-- without operations, leaves its count at 0.
unfoldable pub superblock_create_inode : Inodes → ℕ → Bool → Inodes × Option ℕ
unfolding inode_ref
superblock_create_inode s i false = (s, none)
superblock_create_inode s i true =
    let s' = with_inode s i cleared in
    ((inode_ref (record s' { clean_inodes = i ∷ s'.clean_inodes }) i).0, some i)

-- The lists and the state; the memory that the file system has for the inode is left out.
unfoldable pub inode_free : Inodes → ℕ → Inodes
unfolding list_del_init
inode_free s i = list_del_init (with_inode s i (record (s.inode i) { i_state = 0 })) i
