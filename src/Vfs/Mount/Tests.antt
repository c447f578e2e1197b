-- ===== src/Vfs/Mount/Tests.antt =====
-- A root file system, and a mount under it at the dentry 1.
use oscomp.Common.{length, ◌≡◌, refl, true, none, some, [], ◌∷◌, arith}
use oscomp.Vfs.Inode.{Inode}
use oscomp.Vfs.Dentry.{Dentry}
use oscomp.Vfs.Mount.{Mount, Tree, dentry_lookup_mountpoint}
use oscomp.Vfs.Mount.Hidden.{root, child, dentry_lookup_mountpoint_hidden}

abbrev folder : Inode
folder = record {
  i_mode = 0x41ED;
  i_uid = 0;
  i_gid = 0;
  i_size = 0;
  i_nlink = 1;
  i_state = 0;
  i_refcount = 3;
  i_op = true;
}

abbrev top : Dentry
top = record {
  d_refcount = 2;
  d_flags = 0;
  d_inode = some 0;
  d_name = some (0x2F ∷ []);
  d_parent = none;
  d_child_list = 1 ∷ [];
  in_parent = true;
}

abbrev point : Dentry
point = record {
  d_refcount = 2;
  d_flags = 0x2000;
  d_inode = some 1;
  d_name = some (0x61 ∷ []);
  d_parent = some 0;
  d_child_list = [];
  in_parent = true;
}

abbrev outer : Mount
outer = record { mnt_refcount = 2; mnt_root = 0; mnt_dentry = none; mnt_mnt = none }

abbrev inner : Mount
inner = record { mnt_refcount = 1; mnt_root = 0; mnt_dentry = some 1; mnt_mnt = some 0 }

abbrev mounted : Tree
mounted = record {
  dcache = record {
    dentries = some top ∷ some point ∷ [];
    hashed = [];
    bucket = λ p n. length n;
    inodes = record { inode = λ i. folder; dirty_inodes = []; clean_inodes = [] };
    aliases = λ i. [];
  };
  mounts = some outer ∷ some inner ∷ [];
  mount_hashtable = 1 ∷ [];
}

dentry_lookup_mountpoint_hidden_example : dentry_lookup_mountpoint mounted 1 ≡ some (mounted, none)
dentry_lookup_mountpoint_hidden_example =
    dentry_lookup_mountpoint_hidden mounted 1 1 ((inner, 0, refl, refl), tt)
      (child point refl refl (root top refl refl)) (omega arith)
