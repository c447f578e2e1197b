-- ===== src/Vfs/Dentry/Change.antt =====
-- Changing a dentry: dentry_instantiate, dentry_prune, dentry_delete and dentry_rename of
-- kernel/fs/vfs/dentry.c. No file system sets `d_op`, so `d_prune` is never called. The outer `none` is
-- an access through a null pointer or to memory that was given back.
pub mod Rename
pub mod Table
pub mod Whole
pub mod Busy
pub mod Instantiate
use oscomp.Common.{
  ℕ, zero, suc, ◌+◌, ◌-◌, ◌==◌, ltb, length, Bool, true, false, not, ◌&&◌, Option, none, some, List,
  [], ◌∷◌, if◌then◌else◌,
}
use oscomp.Common.Bits.{test_bit, set_bit, clear_bit}
use oscomp.Common.Errno.{Ret, ok, fail, enoent, ebusy}
use oscomp.Vfs.Inode.{Inode, Inodes, inode_ref, with_inode}
use oscomp.Vfs.Dentry.{
  Dentry, Dcache, dentry_at, put, dcache_hashed, dcache_disconnected, leave_inode, leave_parent,
  leave_hash, dentry_ref, dentry_unref,
}
use oscomp.Vfs.Dentry.Acquire.{bucket_head, max_items, with_flag, flagged}

abbrev pub with_d_inode : Dcache → ℕ → Option ℕ → Option Dentry → Dcache
with_d_inode c a i none = c
with_d_inode c a i (some d) = put c a (some (record d { d_inode = i }))

-- A bad inode makes inode_ref return null, which is used as a pointer.
abbrev pub instantiated : Dcache → ℕ → ℕ → Inodes × Bool → Option (Dcache × Ret)
instantiated c a i (s, false) = none
instantiated c a i (s, true) =
    let c' = with_d_inode c a (some i) (dentry_at c a) in
    some (
      record c' { inodes = s; aliases = λ j. if i == j then a ∷ c'.aliases j else c'.aliases j },
      ok 0,
    )

abbrev pub instantiate_at : Dcache → ℕ → ℕ → Option Dentry → Option (Dcache × Ret)
unfolding leave_inode
instantiate_at c a i none = none
instantiate_at c a i (some d) =
    let c' = leave_inode c a d.d_inode in instantiated c' a i (inode_ref c'.inodes i)

unfoldable pub dentry_instantiate : Dcache → ℕ → ℕ → Option (Dcache × Ret)
unfolding instantiate_at
dentry_instantiate c a i = instantiate_at c a i (dentry_at c a)

-- What is written to a dentry that leaves the hash table, its parent, or both.
abbrev pub unhashed : Dentry → Dentry
unhashed d =
    if test_bit d.d_flags dcache_hashed
    then record d { d_flags = clear_bit 32 d.d_flags dcache_hashed }
    else d

abbrev pub pruned_at : Dcache → ℕ → Option Dentry → Option Dcache
pruned_at c a none = none
pruned_at c a (some d) =
    let c' =
      leave_parent (leave_hash c a (test_bit d.d_flags dcache_hashed)) a d.in_parent d.d_parent in
    let d' = unhashed d in
    some (
      put c' a (
        some (record d' {
          d_flags = set_bit d'.d_flags dcache_disconnected;
          in_parent = elim d.d_parent [ none ↦ d.in_parent | some p ↦ false ];
        })))

unfoldable pub dentry_prune : Dcache → ℕ → Option Dcache
dentry_prune c a = pruned_at c a (dentry_at c a)

-- The bit of I_FREEING.
abbrev pub i_freeing : ℕ
i_freeing = 6

abbrev pub one_link_less : Inode → Inode
one_link_less v =
    let n = v.i_nlink - 1 in
    record v { i_nlink = n; i_state = if n == 0 then set_bit v.i_state i_freeing else v.i_state }

abbrev pub pruned : Option Dcache → Option (Dcache × Ret)
pruned none = none
pruned (some c) = some (c, ok 0)

abbrev pub deleted : Dcache → ℕ → Option ℕ → Option (Dcache × Ret)
unfolding dentry_prune
deleted c a none = some (c, fail enoent)
deleted c a (some i) = pruned (
    dentry_prune (record c { inodes = with_inode c.inodes i (one_link_less (c.inodes.inode i)) }) a)

pub dentry_delete : Dcache → ℕ → Option (Dcache × Ret)
unfolding deleted
dentry_delete c a = elim (dentry_at c a) [ none ↦ none | some d ↦ deleted c a d.d_inode ]

-- The pointer to the parent, that to itself included.
abbrev pub parent_or : ℕ → Option ℕ → ℕ
parent_or a none = a
parent_or a (some p) = p

abbrev pub parent_of : ℕ → Dentry → ℕ
parent_of a d = parent_or a d.d_parent

abbrev pub with_parent : ℕ → ℕ → Dentry → Dentry
with_parent a p d = record d { d_parent = if p == a then none else some p; in_parent = true }

abbrev pub adopted : Dcache → ℕ → ℕ → Option Dentry → Dcache
adopted c a p none = c
adopted c a p (some d) = put c p (some (record d { d_child_list = a ∷ d.d_child_list }))

abbrev pub moved_to : Dcache → ℕ → ℕ → Option Dentry → Dcache
moved_to c a p none = c
moved_to c a p (some d) =
    let c' = put c a (some (with_parent a p d)) in adopted c' a p (dentry_at c' p)

abbrev pub after_unref : Option (Dcache × Ret) → Option Dcache
after_unref none = none
after_unref (some (c, r)) = some c

abbrev pub referenced_parent : ℕ → ℕ → ℕ → ℕ → Option Dcache → Option Dcache
unfolding dentry_unref
referenced_parent fuel a old p none = none
referenced_parent fuel a old p (some c) =
    after_unref (dentry_unref fuel (moved_to c a p (dentry_at c a)) old)

-- The change of the parent. A node that is in no list is a null pointer for list_del.
abbrev pub reparent_listed : ℕ → Dcache → ℕ → ℕ → ℕ → Bool → Option ℕ → Option Dcache
unfolding dentry_ref referenced_parent
reparent_listed fuel c a old p true parent =
    referenced_parent fuel a old p (dentry_ref (leave_parent c a true parent) p)
reparent_listed fuel c a old p false parent = none

abbrev pub reparented : ℕ → Dcache → ℕ → Dentry → ℕ → ℕ → Option Dcache
unfolding reparent_listed
reparented fuel c a d old p =
    if old == p then some c else reparent_listed fuel c a old p d.in_parent d.d_parent

abbrev pub with_name : Dcache → ℕ → List ℕ → Option Dentry → Dcache
with_name c a n none = c
with_name c a n (some d) = put c a (some (record d { d_name = some n }))

-- `__dentry_hash` of a dentry under its new key, by the first node of its bucket.
abbrev pub rehashed : Dcache → ℕ → Option ℕ → Dcache × Ret
rehashed c a (some b) = (c, fail ebusy)
rehashed c a none = (with_flag (record c { hashed = a ∷ c.hashed }) a dcache_hashed, ok 0)

abbrev pub rehash_in : Dcache → ℕ → Option (Option ℕ) → Option (Dcache × Ret)
rehash_in c a none = none
rehash_in c a (some o) = some (rehashed c a o)

-- Any failure of `__dentry_hash` becomes -EBUSY.
abbrev pub rehash : Dcache → ℕ → ℕ → List ℕ → Option (Dcache × Ret)
unfolding bucket_head
rehash c a p n =
    if ltb (length c.hashed) max_items
    then rehash_in c a (bucket_head c p n)
    else some (c, fail ebusy)

-- A name that is null, or that could not be copied, is read all the same.
abbrev pub named : ℕ → ℕ → Bool → Dcache → Option (List ℕ) → Option (Dcache × Ret)
unfolding rehash
named a p copy c none = none
named a p false c (some n) = none
named a p true c (some n) = rehash (with_name c a n (dentry_at c a)) a p n

abbrev pub name_in : Option Dentry → Option (List ℕ)
name_in none = none
name_in (some e) = e.d_name

-- The name of the other dentry is read after the old parent was released.
abbrev pub renamed : ℕ → ℕ → ℕ → Bool → Option Dcache → Option (Dcache × Ret)
unfolding named
renamed a b p copy none = none
renamed a b p copy (some c) = named a p copy c (name_in (dentry_at c b))

abbrev pub rename_at :
    ℕ → Dcache → ℕ → ℕ → Bool → Option Dentry → Option Dentry → Option (Dcache × Ret)
unfolding reparented renamed
rename_at fuel c a b copy none o = none
rename_at fuel c a b copy (some d) none = none
rename_at fuel c a b copy (some d) (some e) =
    let c' = put (leave_hash c a (test_bit d.d_flags dcache_hashed)) a (some (unhashed d)) in
    let p = parent_of b e in renamed a b p copy (reparented fuel c' a d (parent_of a d) p)

-- `copy` says whether the new name can be allocated.
pub dentry_rename : ℕ → Dcache → ℕ → ℕ → Bool → Option (Dcache × Ret)
unfolding rename_at
dentry_rename fuel c a b copy =
    if a == b then some (c, ok 0) else rename_at fuel c a b copy (dentry_at c a) (dentry_at c b)
