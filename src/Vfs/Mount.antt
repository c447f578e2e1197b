-- ===== src/Vfs/Mount.antt =====
-- Mounts, kernel/fs/vfs/vfsmount.c, and dentry_lookupMountpoint of kernel/fs/vfs/dentry.c. A mount is a
-- place in the list of all that were ever allocated, `none` once it is freed; the lists that link
-- mounts to each other and to superblocks are left out. `none` as a result is an access to freed memory.
pub mod Held
pub mod Hidden
mod Tests
use oscomp.Common.{
  ℕ, zero, suc, ◌+◌, ◌-◌, ◌==◌, Bool, true, false, not, ◌&&◌, Option, none, some, List, [], ◌∷◌,
  length, get_or, set, if◌then◌else◌,
}
use oscomp.Common.Chain.{◌>>=◌}
use oscomp.Common.Bits.{test_bit}
use oscomp.Common.Errno.{Ret, ok, fail, einval, ebusy}
use oscomp.Vfs.Inode.{unlink}
use oscomp.Vfs.Dentry.{
  Dentry, Dcache, dentry_at, dentry_ref, dentry_unref, released, dcache_mounted,
}

-- `struct vfsmount`; `mnt_dentry` and `mnt_mnt` are its `mnt_path`.
pub record Mount : Type 0 where
  pub mnt_refcount : ℕ
  pub mnt_root : ℕ
  pub mnt_dentry : Option ℕ
  pub mnt_mnt : Option ℕ

-- The dentries, the mounts, and the mounts in the hash table.
pub record Tree : Type 0 where
  pub dcache : Dcache
  pub mounts : List (Option Mount)
  pub mount_hashtable : List ℕ

abbrev pub mount_at : Tree → ℕ → Option Mount
mount_at s k = get_or s.mounts k none

abbrev pub put_mount : Tree → ℕ → Option Mount → Tree
put_mount s k o = record s { mounts = set s.mounts k o }

abbrev pub with_dcache : Tree → Option Dcache → Option Tree
with_dcache s none = none
with_dcache s (some c) = some (record s { dcache = c })

-- dentry_ref and dentry_unref of a dentry that is not null. No more dentries are freed one after the
-- other than there are.
unfoldable pub take : Tree → ℕ → Option Tree
unfolding dentry_ref
take s a = with_dcache s (dentry_ref s.dcache a)

unfoldable pub drop : Tree → ℕ → Option Tree
unfolding dentry_unref
drop s a = with_dcache s (released (dentry_unref (length s.dcache.dentries) s.dcache a))

abbrev pub drop_some : Tree → Option ℕ → Option Tree
unfolding drop
drop_some s none = some s
drop_some s (some a) = drop s a

abbrev pub ref_mount : Tree → ℕ → Option Mount → Option Tree
ref_mount s k none = none
ref_mount s k (some v) =
    some (put_mount s k (some (record v { mnt_refcount = v.mnt_refcount + 1 })))

-- A null pointer is passed over.
unfoldable pub mount_ref : Tree → Option ℕ → Option Tree
mount_ref s none = some s
mount_ref s (some k) = ref_mount s k (mount_at s k)

-- What mount_unref does to a mount without references, where `next` is mount_unref.
abbrev pub free_mount : (Tree → Option ℕ → Option Tree) → Tree → ℕ → Mount → Option Tree
unfolding drop drop_some unlink
free_mount next s k v = do
  s1 ← drop (record s { mount_hashtable = unlink k s.mount_hashtable }) v.mnt_root
  s2 ← drop_some s1 v.mnt_dentry
  s3 ← next s2 v.mnt_mnt
  some (put_mount s3 k none)

abbrev pub unref_mount : (Tree → Option ℕ → Option Tree) → Tree → ℕ → Option Mount → Option Tree
unfolding free_mount
unref_mount next s k none = none
unref_mount next s k (some v) =
    if v.mnt_refcount == 0
    then none
    else if v.mnt_refcount == 1
    then free_mount next s k v
    else some (put_mount s k (some (record v { mnt_refcount = v.mnt_refcount - 1 })))

-- The fuel bounds the mounts that are freed one after the other.
pub unref_mounts : ℕ → Tree → Option ℕ → Option Tree
unfolding unref_mount
unref_mounts fuel s none = some s
unref_mounts zero s (some k) = none
unref_mounts (suc fuel) s (some k) = unref_mount (λ s' p. unref_mounts fuel s' p) s k (mount_at s k)

unfoldable pub mount_unref : Tree → Option ℕ → Option Tree
unfolding unref_mounts
mount_unref s k = unref_mounts (suc (length s.mounts)) s k

abbrev pub same_pointer : Option ℕ → Option ℕ → Bool
same_pointer none none = true
same_pointer (some a) (some b) = a == b
same_pointer p q = false

-- `mount_key_equals`
pub mount_key_equals : Option ℕ → Option ℕ → Option Mount → Bool
mount_key_equals d m none = false
mount_key_equals d m (some v) = same_pointer d v.mnt_dentry && same_pointer m v.mnt_mnt

-- The search of the hash table, from a place on.
pub lookup_from : Tree → Option ℕ → Option ℕ → List ℕ → Option ℕ
unfolding mount_key_equals
lookup_from s d m [] = none
lookup_from s d m (k ∷ l) =
    let rest = lookup_from s d m l in if mount_key_equals d m (mount_at s k) then some k else rest

abbrev pub path_lookup_mount : Tree → Option ℕ → Option ℕ → Option ℕ
unfolding lookup_from
path_lookup_mount s d m = lookup_from s d m s.mount_hashtable

-- The search for the mount of a dentry, from the dentry up to the root; `fuel` bounds the way.
abbrev pub or_up : (ℕ → Option (Option ℕ)) → Option ℕ → Option ℕ → Option (Option ℕ)
or_up next (some k) p = some (some k)
or_up next none none = some none
or_up next none (some p) = next p

-- A dentry that is not the root is asked about only if it is marked as a mount point.
abbrev pub found_over : Option ℕ → Bool → Option ℕ → Option ℕ
found_over none marked found = found
found_over (some p) marked found = if marked then found else none

abbrev pub mount_over : (ℕ → Option (Option ℕ)) → Tree → ℕ → Option Dentry → Option (Option ℕ)
unfolding path_lookup_mount
mount_over next s a none = none
mount_over next s a (some d) =
    or_up next
      (found_over d.d_parent (test_bit d.d_flags dcache_mounted)
        (path_lookup_mount s (some a) none))
      d.d_parent

pub find_mount : ℕ → Tree → ℕ → Option (Option ℕ)
unfolding mount_over
find_mount zero s a = none
find_mount (suc fuel) s a = mount_over (λ p. find_mount fuel s p) s a (dentry_at s.dcache a)

-- The mount has one reference more.
unfoldable pub dentry_lookup_mountpoint : Tree → ℕ → Option (Tree × Option ℕ)
unfolding find_mount mount_ref
dentry_lookup_mountpoint s a = do
  found ← find_mount (length s.dcache.dentries) s a
  s' ← mount_ref s found
  some (s', found)

-- `__mount_hash`, where `answer` is what hashtable_insert returns, which inserts if that is not an error.
abbrev pub mount_hash : Tree → ℕ → Option ℕ → Ret → Tree × Ret
mount_hash s k none answer = (s, fail einval)
mount_hash s k (some d) (ok n) = (record s { mount_hashtable = k ∷ s.mount_hashtable }, ok n)
mount_hash s k (some d) (fail e) = (s, fail e)

abbrev pub with_path : Tree → ℕ → Option ℕ → Option ℕ → Option Mount → Option Tree
with_path s k d m none = none
with_path s k d m (some v) = some (put_mount s k (some (record v { mnt_dentry = d; mnt_mnt = m })))

abbrev pub take_some : Tree → Option ℕ → Option Tree
unfolding take
take_some s none = some s
take_some s (some a) = take s a

abbrev pub hashed_or_undone : ℕ → Option ℕ → Option ℕ → Tree × Ret → Option (Tree × Ret)
unfolding drop_some
hashed_or_undone k d m (s, ok n) = some (s, ok 0)
hashed_or_undone k d m (s, fail e) = do
  s1 ← drop_some s d
  s2 ← mount_unref s1 m
  s3 ← with_path s2 k none none (mount_at s2 k)
  some (s3, fail e)

-- `k` is the mount to add, `d` and `m` are the path where it goes, `answer` that of the hash table.
pub mount_add : Tree → ℕ → Option ℕ → Option ℕ → Ret → Option (Tree × Ret)
unfolding path_lookup_mount take_some mount_ref hashed_or_undone
mount_add s k d m answer = elim (path_lookup_mount s d m) [
  | some busy ↦ some (s, fail ebusy)
  | none ↦ do
    s1 ← take_some s d
    s2 ← mount_ref s1 m
    s3 ← with_path s2 k d m (mount_at s2 k)
    hashed_or_undone k d m (mount_hash s3 k d answer)
]
