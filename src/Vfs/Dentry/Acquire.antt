-- ===== src/Vfs/Dentry/Acquire.antt =====
-- Looking up, making and attaching dentries: dentry_lookup, dentry_acquire and __dentry_alloc of
-- kernel/fs/vfs/dentry.c. Names are compared whole. The hash table is the list of all its nodes, and a
-- walk of a bucket goes along all of them: it reads more than the source does, and a node whose memory
-- was given back makes it fail. With 768 nodes, three quarters of the 1024 buckets, the table would be
-- expanded; the allocation of the larger one is taken to fail then, with -ENOMEM.
pub mod Nodes
pub mod Counts
pub mod Stages
pub mod Stale
use oscomp.Common.{
  ℕ, zero, suc, ◌+◌, ◌-◌, ◌%◌, ◌^◌, ◌==◌, ltb, Bool, true, false, not, ◌&&◌, ◌||◌, Option, none,
  some, List, [], ◌∷◌, ◌++◌, length, if◌then◌else◌,
}
use oscomp.Common.Bits.{set_bit, clear_bit, test_bit}
use oscomp.Common.Errno.{Ret, Errno, ok, fail, einval, enotdir, enoent, eexist}
use oscomp.Vfs.Inode.{Inode, Inodes, inode_ref, inode_unref, unlink}
use oscomp.Vfs.Dentry.{
  Dentry, Dcache, dentry_at, put, dcache_referenced, dcache_hashed, dcache_negative,
  dcache_disconnected, dentry_unref, leave_parent, leave_hash,
}

unfoldable pub name_eq : List ℕ → List ℕ → Bool
name_eq [] [] = true
name_eq [] (y ∷ n) = false
name_eq (x ∷ m) [] = false
name_eq (x ∷ m) (y ∷ n) = x == y && name_eq m n

abbrev pub is_parent : ℕ → Option ℕ → Bool
is_parent p none = false
is_parent p (some q) = q == p

abbrev pub is_name : List ℕ → Option (List ℕ) → Bool
is_name n none = false
is_name n (some m) = name_eq m n

-- `__dentry_key_equals`, for the key of a dentry.
abbrev pub has_key : ℕ → List ℕ → Dentry → Bool
unfolding name_eq
has_key p n d = is_parent p d.d_parent && is_name n d.d_name

-- The key of a node is read from its dentry.
abbrev pub met : (Dentry → Bool) → ℕ → Option (Option ℕ) → Option Dentry → Option (Option ℕ)
met f a rest none = none
met f a rest (some d) = if f d then some (some a) else rest

-- The first node of a list with the property.
unfoldable pub hash_walk : (Dentry → Bool) → Dcache → List ℕ → Option (Option ℕ)
hash_walk f c [] = some none
hash_walk f c (a ∷ l) = let rest = hash_walk f c l in met f a rest (dentry_at c a)

-- `__dentry_lookupHash`
unfoldable pub hash_find : Dcache → ℕ → List ℕ → Option (Option ℕ)
unfolding hash_walk has_key
hash_find c p n = hash_walk (has_key p n) c c.hashed

-- The bucket of a key; a dentry in the table has a parent and a name.
abbrev pub bucket_of : Dcache → Option ℕ → Option (List ℕ) → Option ℕ
bucket_of c none n = none
bucket_of c (some p) none = none
bucket_of c (some p) (some n) = some (c.bucket p n)

abbrev pub in_bucket : Dcache → ℕ → Dentry → Bool
in_bucket c k d = is_parent k (bucket_of c d.d_parent d.d_name)

-- The first node of the bucket of a key.
unfoldable pub bucket_head : Dcache → ℕ → List ℕ → Option (Option ℕ)
unfolding hash_walk
bucket_head c p n = hash_walk (in_bucket c (c.bucket p n)) c c.hashed

abbrev pub touched : Dentry → Dentry
touched d = record d {
  d_refcount = d.d_refcount + 1;
  d_flags = set_bit d.d_flags dcache_referenced;
}

abbrev pub touch_at : Dcache → ℕ → Option Dentry → Dcache × Option ℕ
touch_at c a none = (c, none)
touch_at c a (some d) = (put c a (some (touched d)), some a)

abbrev pub touch : Dcache → Option ℕ → Dcache × Option ℕ
touch c none = (c, none)
touch c (some a) = touch_at c a (dentry_at c a)

abbrev pub touch_found : Dcache → Option (Option ℕ) → Option (Dcache × Option ℕ)
touch_found c none = none
touch_found c (some o) = some (touch c o)

-- The time of the access is left out.
pub dentry_lookup : Dcache → ℕ → List ℕ → Option (Dcache × Option ℕ)
unfolding hash_find
dentry_lookup c p n = touch_found c (hash_find c p n)

-- The file type that is asked for.
pub data Kind : Type 0 where
  any file directory : Kind

pub data Acquired : Type 0 where
  got : ℕ → Acquired
  null : Acquired
  error : Errno → Acquired

-- What the file systems say: whether a dentry is valid, where they have that operation, and which modes
-- are those of directories.
pub record FileSystem : Type 0 where
  pub d_revalidate : ℕ → Option Bool
  pub is_dir : ℕ → Bool

abbrev pub has_mode : FileSystem → Dcache → Option ℕ → Bool
has_mode fs c none = false
has_mode fs c (some i) = fs.is_dir (c.inodes.inode i).i_mode

abbrev pub is_directory : FileSystem → Dcache → Option Dentry → Bool
is_directory fs c none = false
is_directory fs c (some d) = has_mode fs c d.d_inode

abbrev pub matches_inode : FileSystem → Dcache → Kind → Option ℕ → Bool
matches_inode fs c any i = true
matches_inode fs c k none = false
matches_inode fs c file (some i) = not (fs.is_dir (c.inodes.inode i).i_mode)
matches_inode fs c directory (some i) = fs.is_dir (c.inodes.inode i).i_mode

abbrev pub matches : FileSystem → Dcache → Kind → Option Dentry → Bool
matches fs c k none = false
matches fs c k (some d) = matches_inode fs c k d.d_inode

abbrev pub dropped : Option (Dcache × Ret) → Option (Dcache × Option ℕ)
dropped none = none
dropped (some (c, r)) = some (c, none)

abbrev pub unref_again : ℕ → ℕ → Option (Dcache × Ret) → Option (Dcache × Option ℕ)
unref_again fuel a none = none
unref_again fuel a (some (c, r)) = dropped (dentry_unref fuel c a)

abbrev pub is_stale : FileSystem → ℕ → Bool
is_stale fs a = elim (fs.d_revalidate a) [ none ↦ false | some valid ↦ not valid ]

-- A dentry that is not valid any more is released twice.
abbrev pub revalidated : ℕ → FileSystem → Bool → Dcache → Option ℕ → Option (Dcache × Option ℕ)
revalidated fuel fs revalidate c none = some (c, none)
revalidated fuel fs revalidate c (some a) =
    if revalidate && is_stale fs a
    then unref_again fuel a (dentry_unref fuel c a)
    else some (c, some a)

abbrev pub of_kind : ℕ → FileSystem → Kind → Dcache → Option ℕ → Option (Dcache × Option ℕ)
of_kind fuel fs k c none = some (c, none)
of_kind fuel fs k c (some a) =
    if matches fs c k (dentry_at c a) then some (c, some a) else dropped (dentry_unref fuel c a)

abbrev pub new_dentry : ℕ → Option (List ℕ) → Dentry
new_dentry p n = record {
  d_refcount = 1;
  d_flags = 0;
  d_inode = none;
  d_name = n;
  d_parent = some p;
  d_child_list = [];
  in_parent = true;
}

abbrev pub with_child : ℕ → Dentry → Dentry
with_child a d = record d { d_refcount = d.d_refcount + 1; d_child_list = a ∷ d.d_child_list }

abbrev pub add_dentry : Dcache → ℕ → Option (List ℕ) → Option Dentry → Option (Dcache × Option ℕ)
add_dentry c p n none = none
add_dentry c p n (some d) =
    let a = length c.dentries in
    let c' = put c p (some (with_child a d)) in
    some (record c' { dentries = c'.dentries ++ some (new_dentry p n) ∷ [] }, some a)

-- `memory` is the answer of kmalloc, and a `name` that could not be copied is null.
pub dentry_alloc : Dcache → ℕ → Option (List ℕ) → Bool → Option (Dcache × Option ℕ)
dentry_alloc c p name memory =
    if memory then add_dentry c p name (dentry_at c p) else some (c, none)

abbrev pub flagged : Dcache → ℕ → ℕ → Option Dentry → Dcache
flagged c a k none = c
flagged c a k (some d) = put c a (some (record d { d_flags = set_bit d.d_flags k }))

abbrev pub with_flag : Dcache → ℕ → ℕ → Dcache
with_flag c a k = flagged c a k (dentry_at c a)

-- A table with fewer nodes is not expanded.
abbrev pub max_items : ℕ
max_items = 768

-- hashtable_insert compares the key of a node with itself, as __dentry_get_key has one place for all of
-- them: any node in the bucket makes it give -EEXIST.
abbrev pub insert_unless : Dcache → ℕ → Option ℕ → Dcache
insert_unless c a none = with_flag (record c { hashed = a ∷ c.hashed }) a dcache_hashed
insert_unless c a (some b) = c

abbrev pub insert_in : Dcache → ℕ → Option (Option ℕ) → Option Dcache
insert_in c a none = none
insert_in c a (some o) = some (insert_unless c a o)

-- `__dentry_hash`
abbrev pub hash_new : Dcache → ℕ → ℕ → List ℕ → Option Dcache
unfolding bucket_head
hash_new c p a n =
    if ltb (length c.hashed) max_items then insert_in c a (bucket_head c p n) else some c

abbrev pub marked_negative : ℕ → Option Dcache → Option (Dcache × Acquired)
marked_negative a none = none
marked_negative a (some c) = some (with_flag c a dcache_negative, got a)

-- Hashing a dentry whose name is null reads through the null pointer.
abbrev pub entered : ℕ → Option (List ℕ) → Option (Dcache × Option ℕ) → Option (Dcache × Acquired)
unfolding hash_new
entered p n none = none
entered p n (some (c, none)) = some (c, null)
entered p none (some (c, some a)) = none
entered p (some n) (some (c, some a)) = marked_negative a (hash_new c p a n)

abbrev pub or_new :
    ℕ → Option (List ℕ) → Bool → Bool → Option (Dcache × Option ℕ) → Option (Dcache × Acquired)
unfolding entered dentry_alloc
or_new p n alloc memory none = none
or_new p n alloc memory (some (c, some a)) = some (c, got a)
or_new p n alloc memory (some (c, none)) =
    if alloc then entered p n (dentry_alloc c p n memory) else some (c, null)

abbrev pub then_kind :
    ℕ → FileSystem → Kind → Option (Dcache × Option ℕ) → Option (Dcache × Option ℕ)
then_kind fuel fs k none = none
then_kind fuel fs k (some (c, o)) = of_kind fuel fs k c o

abbrev pub revalidate_found :
    ℕ → FileSystem → Bool → Option (Dcache × Option ℕ) → Option (Dcache × Option ℕ)
revalidate_found fuel fs revalidate none = none
revalidate_found fuel fs revalidate (some (c, o)) = revalidated fuel fs revalidate c o

-- `copy` says whether the name of a new dentry can be copied, `memory` whether there is room for it.
unfoldable pub dentry_acquire :
    ℕ
    → FileSystem
    → Dcache
    → ℕ
    → List ℕ
    → Kind
    → Bool
    → Bool
    → Bool
    → Bool
    → Option (Dcache × Acquired)
unfolding dentry_lookup or_new
dentry_acquire fuel fs c p name k revalidate alloc copy memory =
    if not (is_directory fs c (dentry_at c p))
    then some (c, error enotdir)
    else or_new p (if copy then some name else none) alloc memory
        (then_kind fuel fs k (revalidate_found fuel fs revalidate (dentry_lookup c p name)))
