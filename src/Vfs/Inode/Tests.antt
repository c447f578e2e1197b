-- ===== src/Vfs/Inode/Tests.antt =====
-- A superblock with inodes that nobody has used yet.
use oscomp.Common.{◌≡◌, ◌↔◌, refl, false, true, none, some, ◌∷◌, [], arith}
use oscomp.Common.Bits.{test_bit, set_bit}
use oscomp.Common.Errno.{ok, fail, eacces}
use oscomp.Vfs.Inode.{
  Inode, Inodes, Caller, inode_permission, inode_check_permission, inode_ref, inode_unref,
  inode_set_dirty, inode_sync, unlock_new_inode,
}
use oscomp.Vfs.Inode.Permission.{Granted, inode_permission-Granted}
use oscomp.Vfs.Inode.Lists.{ArePlaced, Reach-ArePlaced, here, next, refs, dirties, unrefs}

-- A file that its owner 5 may read and write, and all others read.
abbrev plain : Inode
plain = record {
  i_mode = 0x1A4;
  i_uid = 5;
  i_gid = 7;
  i_size = 100;
  i_nlink = 1;
  i_state = 0;
  i_refcount = 0;
  i_op = true;
}

abbrev visitor : Caller
visitor = record { euid = 9; is_readonly = false; permission = none; is_device = λ m. false }

visitor_reads : inode_permission visitor (some plain) 4 ≡ ok 0
unfolding inode_permission test_bit
visitor_reads = refl

visitor_cannot_write : inode_check_permission visitor (some plain) 2 ≡ fail eacces
unfolding inode_check_permission test_bit
visitor_cannot_write = refl

inode_permission-Granted_example :
    (inode_permission visitor (some plain) 4 ≡ ok 0) ↔ Granted visitor plain 4
inode_permission-Granted_example = inode_permission-Granted visitor plain 4 refl

abbrev unused : Inodes
unused = record { inode = λ i. plain; dirty_inodes = []; clean_inodes = [] }

unused-ArePlaced : ArePlaced unused
unfolding test_bit
unused-ArePlaced i = (refl, omega arith)

-- The inode is used, made dirty and written.
abbrev written : Inodes
written = (inode_sync (inode_set_dirty (inode_ref unused 3).0 3) 3 true (ok 0)).0

written_clean : written.clean_inodes ≡ 3 ∷ []
unfolding inode_sync inode_set_dirty inode_ref test_bit set_bit
written_clean = refl

unlock_old : (unlock_new_inode unused 3).0 ≡ unused
unfolding unlock_new_inode test_bit
unlock_old = refl

Reach-ArePlaced_example : ArePlaced (inode_unref (inode_set_dirty (inode_ref unused 3).0 3) 3)
Reach-ArePlaced_example = Reach-ArePlaced unused-ArePlaced (
    next (next (next here (refs unused 3)) (dirties (inode_ref unused 3).0 3))
      (unrefs (inode_set_dirty (inode_ref unused 3).0 3) 3))
