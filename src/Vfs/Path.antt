-- ===== src/Vfs/Path.antt =====
-- The steps of a walk along a path, of vfs_pathwalk of kernel/fs/vfs/vfs.c, with inode_lookup of
-- kernel/fs/vfs/inode.c. A text is the list of its bytes, without the zero at its end. `none` as a result
-- is an access to freed memory.
pub mod Parts
pub mod Holds
pub mod Balance
pub mod Walk
pub mod Parent
mod Tests
use oscomp.Common.{
  ℕ, zero, suc, ◌+◌, ◌==◌, Bool, true, false, not, ◌&&◌, Option, none, some, List, [], ◌∷◌, length,
  if◌then◌else◌,
}
use oscomp.Common.Chain.{◌>>=◌}
use oscomp.Common.Bits.{test_bit}
use oscomp.Common.Errno.{Ret, Errno, ok, fail, einval, enomem, enotdir}
use oscomp.Vfs.Inode.{inode_ref}
use oscomp.Vfs.Dentry.{Dentry, Dcache, dentry_at, dcache_mounted, released}
use oscomp.Vfs.Dentry.Acquire.{FileSystem, Acquired, got, null, error, any, dentry_acquire}
use oscomp.Vfs.Dentry.Change.{parent_of, dentry_instantiate}
use oscomp.Vfs.Dentry.Paths.{slash}
use oscomp.Vfs.Mount.{
  Mount, Tree, mount_at, take, drop, mount_ref, mount_unref, dentry_lookup_mountpoint,
}

-- What the file systems and kmalloc answer, and whether LOOKUP_AUTOMOUNT is set. `lookup` is the
-- operation of a directory's inode, where it has one, on the dentry to fill; its result is null, an
-- error, or a dentry with a reference for the caller. `copy` and `memory` are the answers to the
-- allocations of a name and of a dentry, by the number of rounds that are left.
pub record World : Type 0 where
  pub fs : FileSystem
  pub lookup : ℕ → Option (Dcache → ℕ → Dcache × Acquired)
  pub copy : ℕ → Bool
  pub memory : ℕ → Bool
  pub automount : Bool

-- `struct path`, or an error.
pub data Walked : Type 0 where
  at_path : ℕ → Option ℕ → Walked
  stopped : Errno → Walked

abbrev pub dot : ℕ
dot = 0x2E

abbrev pub with_rest : ℕ → List ℕ × List ℕ → List ℕ × List ℕ
with_rest x (c, rest) = (x ∷ c, rest)

-- The bytes in front of the first slash, and those behind it.
unfoldable pub cut : List ℕ → List ℕ × List ℕ
cut [] = ([], [])
cut (x ∷ l) = let r = cut l in if x == slash then ([], l) else with_rest x r

abbrev pub is_dot : List ℕ → Bool
is_dot (x ∷ []) = x == dot
is_dot l = false

abbrev pub is_dotdot : List ℕ → Bool
is_dotdot (x ∷ y ∷ []) = x == dot && y == dot
is_dotdot l = false

abbrev pub is_empty : List ℕ → Bool
is_empty [] = true
is_empty (x ∷ l) = false

-- What the loop does next, with a dentry and a mount.
abbrev pub Next : Type 0
Next = Tree → ℕ → Option ℕ → Option (Tree × Walked)

-- Both references are given back.
pub give_up : Tree → ℕ → Option ℕ → Errno → Option (Tree × Walked)
unfolding drop mount_unref
give_up s a m e = do s1 ← drop s a; s2 ← mount_unref s1 m; some (s2, stopped e)

abbrev pub to_parent_of : Next → Tree → ℕ → Option ℕ → Option Dentry → Option (Tree × Walked)
unfolding drop take
to_parent_of next s a m none = none
to_parent_of next s a m (some d) = do
  s1 ← drop s a
  s2 ← take s1 (parent_of a d)
  next s2 (parent_of a d) m

abbrev pub to_parent : Next → Tree → ℕ → Option ℕ → Option (Tree × Walked)
unfolding to_parent_of
to_parent next s a m = to_parent_of next s a m (dentry_at s.dcache a)

-- To the parent of the mount point; without one the null pointer is read.
abbrev pub above_point : Next → Tree → Option ℕ → Option ℕ → Option (Tree × Walked)
unfolding to_parent take
above_point next s none m = none
above_point next s (some q) m = do s1 ← take s q; to_parent next s1 q m

abbrev pub across : Next → Tree → ℕ → ℕ → Mount → Option ℕ → Option (Tree × Walked)
unfolding above_point drop mount_ref mount_unref
across next s a k v none = next s a (some k)
across next s a k v (some p) = if p == k then next s a (some k) else (do
  s1 ← drop s a
  s2 ← mount_unref s1 (some k)
  s3 ← mount_ref s2 (some p)
  above_point next s3 v.mnt_dentry (some p))

abbrev pub up_in : Next → Tree → ℕ → ℕ → Option Mount → Option (Tree × Walked)
unfolding across to_parent
up_in next s a k none = none
up_in next s a k (some v) =
    if a == v.mnt_root then across next s a k v v.mnt_mnt else to_parent next s a (some k)

pub up : Next → Next
unfolding up_in to_parent
up next s a none = to_parent next s a none
up next s a (some k) = up_in next s a k (mount_at s k)

-- The switch to what is mounted on the dentry.
abbrev pub switched : Next → ℕ → Option ℕ → Option (Tree × Option ℕ) → Option (Tree × Walked)
unfolding mount_unref take drop
switched next b m none = none
switched next b m (some (s, none)) = next s b m
switched next b m (some (s, some k)) = do
  s1 ← mount_unref s m
  v ← mount_at s1 k
  s2 ← take s1 v.mnt_root
  s3 ← drop s2 b
  next s3 v.mnt_root (some k)

abbrev pub is_mountpoint : Option Dentry → Bool
is_mountpoint none = false
is_mountpoint (some d) = test_bit d.d_flags dcache_mounted

-- The parent is released.
pub moved_down : World → Next → Tree → ℕ → Option ℕ → ℕ → Option (Tree × Walked)
unfolding switched drop dentry_lookup_mountpoint
moved_down w next s a m b = do
  s1 ← drop s a
  if w.automount && is_mountpoint (dentry_at s1.dcache b)
      then switched next b m (dentry_lookup_mountpoint s1 b)
      else next s1 b m

-- `inode_lookup`
abbrev pub inode_lookup :
    World → Dcache → ℕ → ℕ → (Dcache → ℕ → Dcache × Acquired) → Dcache × Acquired
inode_lookup w c i b f = if w.fs.is_dir (c.inodes.inode i).i_mode then f c b else (c, error enotdir)

-- dentry_instantiate with what inode_ref returns, which is null for a bad inode.
abbrev pub filled : Dcache → ℕ → ℕ → Option Dcache
unfolding inode_ref dentry_instantiate
filled c b j =
    let (inodes, there) = inode_ref c.inodes j in
    let c' = record c { inodes = inodes } in
    if there then released (dentry_instantiate c' b j) else some c'

-- The dentry that the file system found is released again, if it has an inode.
abbrev pub filled_with : Tree → ℕ → ℕ → Option ℕ → Option Tree
unfolding filled drop
filled_with s b x none = some s
filled_with s b x (some j) = do c ← filled s.dcache b j; drop (record s { dcache = c }) x

abbrev pub filled_from : Tree → ℕ → ℕ → Option Dentry → Option Tree
unfolding filled_with
filled_from s b x none = none
filled_from s b x (some e) = filled_with s b x e.d_inode

abbrev pub searched :
    World → Next → Tree → ℕ → Option ℕ → ℕ → Dcache × Acquired → Option (Tree × Walked)
unfolding moved_down filled_from drop give_up
searched w next s a m b (c, null) = moved_down w next (record s { dcache = c }) a m b
searched w next s a m b (c, error e) = do s1 ← drop (record s { dcache = c }) b; give_up s1 a m e
searched w next s a m b (c, got x) =
    let s' = record s { dcache = c } in
    do s1 ← filled_from s' b x (dentry_at c x); moved_down w next s1 a m b

abbrev pub inode_of : Option Dentry → Option ℕ
inode_of none = none
inode_of (some d) = d.d_inode

abbrev pub with_number :
    ℕ → Option (Dcache → ℕ → Dcache × Acquired) → Option (ℕ × (Dcache → ℕ → Dcache × Acquired))
with_number i none = none
with_number i (some f) = some (i, f)

-- The operation `lookup` of a directory for a dentry without an inode.
abbrev pub lookup_of :
    World → Dcache → Option ℕ → Option ℕ → Option (ℕ × (Dcache → ℕ → Dcache × Acquired))
lookup_of w c (some j) i = none
lookup_of w c none none = none
lookup_of w c none (some i) = if (c.inodes.inode i).i_op then with_number i (w.lookup i) else none

abbrev pub looked :
    World
    → Next
    → Tree
    → ℕ
    → Option ℕ
    → ℕ
    → Option (ℕ × (Dcache → ℕ → Dcache × Acquired))
    → Option (Tree × Walked)
unfolding searched moved_down
looked w next s a m b none = moved_down w next s a m b
looked w next s a m b (some (i, f)) = searched w next s a m b (inode_lookup w s.dcache i b f)

pub acquired :
    World → Next → Tree → ℕ → Option ℕ → Option (Dcache × Acquired) → Option (Tree × Walked)
unfolding looked give_up
acquired w next s a m none = none
acquired w next s a m (some (c, null)) = give_up (record s { dcache = c }) a m enomem
acquired w next s a m (some (c, error e)) = give_up (record s { dcache = c }) a m e
acquired w next s a m (some (c, got b)) =
    looked w next (record s { dcache = c }) a m b
      (lookup_of w c (inode_of (dentry_at c b)) (inode_of (dentry_at c a)))

-- One component, that is not empty: dentry_acquireRaw takes it as any kind of dentry.
abbrev pub down : World → ℕ → Next → List ℕ → Next
unfolding acquired dentry_acquire
down w k next c s a m = acquired w next s a m (
    dentry_acquire (length s.dcache.dentries) w.fs s.dcache a c any true true (w.copy k)
      (w.memory k))

pub component : World → ℕ → Next → List ℕ → Next
unfolding up down
component w k next c s a m =
    if is_dot c
    then next s a m
    else if is_dotdot c
    then up next s a m
    else if is_empty c
    then next s a m
    else down w k next c s a m
