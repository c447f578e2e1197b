-- ===== src/Vfs/Dentry.antt =====
-- Directory entries, kernel/fs/vfs/dentry.c. A dentry is an address, the index of its place in the
-- list of all that were ever allocated; a place is `none` once its memory is given back. Reading such
-- a place is the result `none`. The locks make each operation one step. A count does not wrap around.
pub mod Refs
pub mod Unref
pub mod Last
pub mod Table
pub mod Acquire
pub mod Paths
pub mod Change
mod Tests
use oscomp.Common.{
  ℕ, zero, suc, ◌+◌, ◌-◌, ◌==◌, ltb, Bool, true, false, not, ◌&&◌, Option, none, some, List, [],
  ◌∷◌, ◌++◌, length, get_or, set, if◌then◌else◌,
}
use oscomp.Common.Bits.{test_bit, set_bit, clear_bit}
use oscomp.Common.Errno.{Ret, Errno, ok, fail, einval, enotdir, enoent, eexist, ebusy}
use oscomp.Vfs.Inode.{Inodes, inode_ref, inode_unref, unlink}

-- `struct dentry`. `d_parent` is `none` for a root, whose pointer is to itself; `in_parent` says whether
-- its node is in the parent's list. The name is null if it could not be allocated.
pub record Dentry : Type 0 where
  pub d_refcount : ℕ
  pub d_flags : ℕ
  pub d_inode : Option ℕ
  pub d_name : Option (List ℕ)
  pub d_parent : Option ℕ
  pub d_child_list : List ℕ
  pub in_parent : Bool

-- `hashed` are the dentries in the hash table, `bucket` the bucket of the key of a parent and a name, and
-- `aliases` the lists i_dentryList of the inodes.
pub record Dcache : Type 0 where
  pub dentries : List (Option Dentry)
  pub hashed : List ℕ
  pub bucket : ℕ → List ℕ → ℕ
  pub inodes : Inodes
  pub aliases : ℕ → List ℕ

-- The bits of the DCACHE_ flags.
abbrev pub dcache_disconnected : ℕ
dcache_disconnected = 0

abbrev pub dcache_referenced : ℕ
dcache_referenced = 6

abbrev pub dcache_negative : ℕ
dcache_negative = 8

abbrev pub dcache_mounted : ℕ
dcache_mounted = 13

abbrev pub dcache_hashed : ℕ
dcache_hashed = 14

abbrev pub dentry_at : Dcache → ℕ → Option Dentry
dentry_at c a = get_or c.dentries a none

abbrev pub put : Dcache → ℕ → Option Dentry → Dcache
put c a o = record c { dentries = set c.dentries a o }

-- The list of children of a parent, if that is there.
abbrev pub unlink_child : Dcache → ℕ → ℕ → Option Dentry → Dcache
unfolding unlink
unlink_child c a p none = c
unlink_child c a p (some d) = put c p (some (record d { d_child_list = unlink a d.d_child_list }))

abbrev pub leave_parent : Dcache → ℕ → Bool → Option ℕ → Dcache
leave_parent c a false p = c
leave_parent c a true none = c
leave_parent c a true (some p) = unlink_child c a p (dentry_at c p)

abbrev pub leave_hash : Dcache → ℕ → Bool → Dcache
leave_hash c a b = if b then record c { hashed = unlink a c.hashed } else c

abbrev pub leave_inode : Dcache → ℕ → Option ℕ → Dcache
unfolding unlink
leave_inode c a none = c
leave_inode c a (some i) = record c {
  aliases = λ j. if i == j then unlink a (c.aliases j) else c.aliases j;
  inodes = inode_unref c.inodes i;
}

-- What a free takes the dentry out of.
pub detached : Dcache → ℕ → Dentry → Dcache
unfolding unlink inode_unref
detached c a d =
    leave_inode
      (leave_parent (leave_hash c a (test_bit d.d_flags dcache_hashed)) a d.in_parent d.d_parent) a
      d.d_inode

abbrev pub released : Option (Dcache × Ret) → Option Dcache
released none = none
released (some (c, r)) = some c

abbrev pub release_parent : (Dcache → ℕ → Option (Dcache × Ret)) → Dcache → Option ℕ → Option Dcache
release_parent next c none = some c
release_parent next c (some p) = released (next c p)

abbrev pub given_back : ℕ → Option Dcache → Option Dcache
given_back a none = none
given_back a (some c) = some (put c a none)

-- `__dentry_free`, where `next` is dentry_unref. What it writes to the dentry itself before the memory
-- is given back is left out. No dentry is ever on the LRU list.
pub dentry_free : (Dcache → ℕ → Option (Dcache × Ret)) → Dcache → ℕ → Dentry → Option Dcache
unfolding detached
dentry_free next c a d = given_back a (release_parent next (detached c a d) d.d_parent)

abbrev pub done : Option Dcache → Option (Dcache × Ret)
done none = none
done (some c) = some (c, ok 0)

abbrev pub counted_down : Dcache → ℕ → Dentry → Dcache
counted_down c a d = put c a (some (record d { d_refcount = d.d_refcount - 1 }))

abbrev pub unref_at :
    (Dcache → ℕ → Option (Dcache × Ret)) → Dcache → ℕ → Option Dentry → Option (Dcache × Ret)
unfolding dentry_free
unref_at next c a none = none
unref_at next c a (some d) =
    if d.d_refcount == 0
    then some (c, fail einval)
    else if d.d_refcount == 1
    then done (dentry_free next (counted_down c a d) a d)
    else some (counted_down c a d, ok 0)

-- The fuel bounds the number of dentries that are freed one after the other.
unfoldable pub dentry_unref : ℕ → Dcache → ℕ → Option (Dcache × Ret)
unfolding dentry_free
dentry_unref zero c a = none
dentry_unref (suc fuel) c a = unref_at (λ c' p. dentry_unref fuel c' p) c a (dentry_at c a)

abbrev pub ref_at : Dcache → ℕ → Option Dentry → Option Dcache
ref_at c a none = none
ref_at c a (some d) = some (put c a (some (record d { d_refcount = d.d_refcount + 1 })))

unfoldable pub dentry_ref : Dcache → ℕ → Option Dcache
dentry_ref c a = ref_at c a (dentry_at c a)
