-- ===== src/Vfs/Dentry/Tests.antt =====
-- A root directory at 0, and under it the dentry "a" at 1, on which the caller has one reference each.
use oscomp.Common.{
  length, inr, Option, ℕ, zero, suc, ◌≡◌, refl, false, true, none, some, ◌∷◌, [], arith, get_or,
}
use oscomp.Common.Bits.{test_bit}
use oscomp.Common.Errno.{ok}
use oscomp.Vfs.Inode.{Inode, unlink}
use oscomp.Vfs.Dentry.{Dentry, Dcache, dentry_at, dentry_unref}
use oscomp.Vfs.Dentry.Refs.{Counted, is_zombie}
use oscomp.Vfs.Dentry.Paths.{dentry_alloc_full_path, dentry_alloc_path_to_mount}
use oscomp.Vfs.Dentry.Paths.Full.{
  Ancestry, at_root, below, full_path, dentry_alloc_full_path-full_path,
}
use oscomp.Vfs.Dentry.Paths.Mount.{
  slashed, Upto, at_mount, above, piled, dentry_alloc_path_to_mount_skips,
}
use oscomp.Vfs.Dentry.Acquire.{FileSystem, any, dentry_acquire, hash_find, hash_walk, name_eq, null}
use oscomp.Vfs.Dentry.Acquire.Stale.{dentry_acquire_stale}

abbrev folder : Inode
folder = record {
  i_mode = 0x41ED;
  i_uid = 0;
  i_gid = 0;
  i_size = 0;
  i_nlink = 1;
  i_state = 0;
  i_refcount = 1;
  i_op = true;
}

abbrev root : Dentry
root = record {
  d_refcount = 2;
  d_flags = 0;
  d_inode = some 0;
  d_name = some (0x2F ∷ []);
  d_parent = none;
  d_child_list = 1 ∷ [];
  in_parent = false;
}

abbrev child : Dentry
child = record {
  d_refcount = 1;
  d_flags = 0x4000;
  d_inode = none;
  d_name = some (0x61 ∷ []);
  d_parent = some 0;
  d_child_list = [];
  in_parent = true;
}

abbrev small : Dcache
small = record {
  dentries = some root ∷ some child ∷ [];
  hashed = 1 ∷ [];
  bucket = λ p n. length n;
  inodes = record { inode = λ i. folder; dirty_inodes = []; clean_inodes = [] };
  aliases = λ i. [];
}

abbrev one_each : ℕ → ℕ
one_each zero = 1
one_each (suc zero) = 1
one_each (suc (suc q)) = 0

small-counts : Counted one_each small.dentries
small-counts zero = refl
small-counts (suc zero) = refl
small-counts (suc (suc q)) = ground arith

small-places : (q : ℕ) → is_zombie (get_or small.dentries q none) ≡ false
small-places zero = refl
small-places (suc zero) = refl
small-places (suc (suc q)) = refl

abbrev plain_fs : FileSystem
plain_fs = record { d_revalidate = λ a. none; is_dir = λ m. true }

-- The root stays, with one reference; its child is freed.
child_freed :
    dentry_unref 2 small 1
    ≡ some (
      record small {
        dentries = some (record root { d_refcount = 1; d_child_list = [] }) ∷ none ∷ [];
        hashed = [];
      },
      ok 0,
    )
unfolding dentry_unref test_bit unlink
child_freed = refl

-- The child has become invalid.
abbrev stale_fs : FileSystem
stale_fs = record { d_revalidate = λ a. some false; is_dir = λ m. true }

child_found : hash_find small 0 (0x61 ∷ []) ≡ some (some 1)
unfolding hash_find hash_walk name_eq
child_found = refl

dentry_acquire_stale_example :
    (c' : Dcache) × (dentry_acquire 2 stale_fs small 0 (0x61 ∷ []) any true false true true
      ≡ some (c', null))
    × (dentry_at c' 1 ≡ none)
dentry_acquire_stale_example =
    dentry_acquire_stale 2 stale_fs small 0 1 (0x61 ∷ []) any true true one_each
      (small-counts, small-places) (omega arith) refl child_found refl refl refl

-- The names "a", "b" and "c", one below the other, under a root.
abbrev branch : ℕ → Option ℕ → Dentry
branch x p = record child { d_name = some (x ∷ []); d_parent = p; d_flags = 0 }

abbrev deep : Dcache
deep = record small {
  dentries =
      some root
      ∷ some (branch 0x61 (some 0))
      ∷ some (branch 0x62 (some 1))
      ∷ some (branch 0x63 (some 2))
      ∷ [];
  hashed = [];
}

deep-Ancestry : Ancestry deep 3 ((0x63 ∷ []) ∷ (0x62 ∷ []) ∷ (0x61 ∷ []) ∷ [])
deep-Ancestry =
    below 3 2 (branch 0x63 (some 2)) (0x63 ∷ []) ((0x62 ∷ []) ∷ (0x61 ∷ []) ∷ []) refl refl refl (
      below 2 1 (branch 0x62 (some 1)) (0x62 ∷ []) ((0x61 ∷ []) ∷ []) refl refl refl
        (below 1 0 (branch 0x61 (some 0)) (0x61 ∷ []) [] refl refl refl (at_root 0 root refl refl)))

-- "/a/b/c"
dentry_alloc_full_path-full_path_example :
    dentry_alloc_full_path 4 deep 3 true
    ≡ some (some (full_path ((0x63 ∷ []) ∷ (0x62 ∷ []) ∷ (0x61 ∷ []) ∷ [])))
dentry_alloc_full_path-full_path_example =
    dentry_alloc_full_path-full_path 4 deep 3 ((0x63 ∷ []) ∷ (0x62 ∷ []) ∷ (0x61 ∷ []) ∷ [])
      deep-Ancestry (omega arith)

not_mounted : test_bit 0 13 ≡ false
unfolding test_bit
not_mounted = refl

deep-Upto : Upto deep 2 1 ((0x61 ∷ []) ∷ [])
deep-Upto =
    above 1 0 (branch 0x61 (some 0)) (0x61 ∷ []) [] refl not_mounted refl refl (omega arith)
      (at_mount 0 root refl (inr refl))

-- "/a/c"
dentry_alloc_path_to_mount_skips_example :
    dentry_alloc_path_to_mount 4 deep 3 true
    ≡ some (some (slashed (piled ((0x61 ∷ []) ∷ []) ((0x63 ∷ []) ∷ []))))
dentry_alloc_path_to_mount_skips_example =
    dentry_alloc_path_to_mount_skips deep 3 2 1 (branch 0x63 (some 2)) (branch 0x62 (some 1))
      (0x63 ∷ []) ((0x61 ∷ []) ∷ []) 4 refl not_mounted refl refl (omega arith) refl not_mounted
      refl deep-Upto (omega arith) (omega arith)

-- "a" and "b" in the root, both in the hash table, with one reference from outside on each.
abbrev siblings : Dcache
siblings = record small {
  dentries =
      some (record root { d_refcount = 3 })
      ∷ some child
      ∷ some (record child { d_name = some (0x62 ∷ []) })
      ∷ [];
  hashed = 2 ∷ 1 ∷ [];
}

abbrev three_held : ℕ → ℕ
three_held zero = 1
three_held (suc zero) = 1
three_held (suc (suc zero)) = 1
three_held (suc (suc (suc q))) = 0
