-- ===== src/Vfs/Path/Walk.antt =====
-- The loop of vfs_pathwalk of kernel/fs/vfs/vfs.c over its steps, and path_create and path_destroy of
-- kernel/fs/vfs/path.c.
pub mod Whole
pub mod Dotdot
use oscomp.Common.{
  ℕ, zero, suc, ◌+◌, ◌==◌, Bool, true, false, not, ◌&&◌, Option, none, some, List, [], ◌∷◌, length,
  if◌then◌else◌,
}
use oscomp.Common.Chain.{◌>>=◌}
use oscomp.Common.Bits.{test_bit}
use oscomp.Common.Errno.{Ret, Errno, ok, fail, einval, enomem, enotdir}
use oscomp.Vfs.Inode.{inode_ref}
use oscomp.Vfs.Dentry.{Dentry, Dcache, dentry_at, dcache_mounted, released}
use oscomp.Vfs.Dentry.Acquire.{FileSystem, Acquired, got, null, error, any, dentry_acquire}
use oscomp.Vfs.Dentry.Change.{parent_of, dentry_instantiate}
use oscomp.Vfs.Dentry.Paths.{slash}
use oscomp.Vfs.Mount.{
  Mount, Tree, mount_at, take, drop, mount_ref, mount_unref, dentry_lookup_mountpoint,
}
use oscomp.Vfs.Path.{World, Walked, at_path, stopped, Next, cut, component, give_up}

-- The loop; the fuel bounds the components.
pub walk : World → ℕ → List ℕ → Next
unfolding component cut
walk w k [] s a m = some (s, at_path a m)
walk w zero (x ∷ l) s a m = none
walk w (suc k) (x ∷ l) s a m =
    let (c, rest) = cut (x ∷ l) in component w k (λ s' a' m'. walk w k rest s' a' m') c s a m

-- An empty path is the start itself; the copy of a path needs memory.
abbrev pub walk_copy : World → Bool → List ℕ → Next
unfolding walk give_up
walk_copy w copied [] s a m = some (s, at_path a m)
walk_copy w copied (x ∷ l) s a m =
    let path = x ∷ l in if copied then walk w (length path) path s a m else give_up s a m enomem

abbrev pub from_root : World → Bool → List ℕ → Next
unfolding walk_copy drop take
from_root w copied path s a none = walk_copy w copied path s a none
from_root w copied path s a (some k) = do
  s1 ← drop s a
  v ← mount_at s1 k
  s2 ← take s1 v.mnt_root
  walk_copy w copied path s2 v.mnt_root (some k)

abbrev pub started : World → Bool → List ℕ → Next
unfolding walk_copy from_root
started w copied [] s a m = walk_copy w copied [] s a m
started w copied (x ∷ l) s a m =
    if x == slash then from_root w copied l s a m else walk_copy w copied (x ∷ l) s a m

-- `copied` is the answer to the allocation of the copy. The pointers are not null, except the mount.
unfoldable pub vfs_pathwalk : World → Bool → Tree → ℕ → Option ℕ → List ℕ → Option (Tree × Walked)
unfolding started take mount_ref
vfs_pathwalk w copied s a m path = do
  s1 ← take s a
  s2 ← mount_ref s1 m
  started w copied path s2 a m

-- `path_destroy`
unfoldable pub path_destroy : Tree → ℕ → Option ℕ → Option Tree
unfolding drop mount_unref
path_destroy s a m = do s1 ← drop s a; mount_unref s1 m

-- The paths of a process, `struct fs_struct`.
pub record FsStruct : Type 0 where
  pub root : ℕ
  pub root_mnt : Option ℕ
  pub pwd : ℕ
  pub pwd_mnt : Option ℕ

pub path_create : World → Bool → FsStruct → Tree → List ℕ → Option (Tree × Walked)
unfolding vfs_pathwalk
path_create w copied p s path = vfs_pathwalk w copied s p.pwd p.pwd_mnt path
