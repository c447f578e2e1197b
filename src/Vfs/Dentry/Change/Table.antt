-- ===== src/Vfs/Dentry/Change/Table.antt =====
-- A change of the parent keeps the hash table and the names; what is hashed again is in it once.
use oscomp.Common.{
  ℕ, ◌+◌, ◌≡◌, ◌≢◌, ◌==◌, refl, Bool, true, false, Option, none, some, List, ◌∷◌, Bool-cases, inl,
  inr, ltb, length,
}
use oscomp.Common.Errno.{Ret, fail, ebusy}
use oscomp.Vfs.Inode.Lists.{count}
use oscomp.Vfs.Dentry.{
  Dentry, Dcache, dentry_at, put, dentry_ref, ref_at, dentry_unref, leave_parent, dcache_hashed,
}
use oscomp.Vfs.Dentry.Table.{
  IsTable, Kept, Kept-refl, Kept-trans, KeptO, KeptO-trans, KeptBy, put-Kept, leave_parent-Kept,
  dentry_unref-Kept,
}
use oscomp.Vfs.Dentry.Acquire.{bucket_head, max_items, in_bucket}
use oscomp.Vfs.Dentry.Acquire.Counts.{IsSafe}
use oscomp.Vfs.Dentry.Acquire.Stages.{flagged-IsSound}
use oscomp.Vfs.Dentry.Acquire.Nodes.{walk_there, inserted-IsTable}
use oscomp.Vfs.Dentry.Change.{
  with_parent, adopted, moved_to, after_unref, referenced_parent, reparent_listed, reparented,
  rehashed, rehash,
}

adopted-Kept :
    (c : Dcache) (a p : ℕ) (o : Option Dentry)
    → dentry_at c p ≡ o
    → IsTable c
    → Kept c (adopted c a p o)
adopted-Kept c a p none e t = Kept-refl c t
adopted-Kept c a p (some d) e t =
    put-Kept c p d (record d { d_child_list = a ∷ d.d_child_list }) e refl refl t

moved_to-Kept :
    (c : Dcache) (a p : ℕ) (o : Option Dentry)
    → dentry_at c a ≡ o
    → IsTable c
    → Kept c (moved_to c a p o)
moved_to-Kept c a p none e t = Kept-refl c t
moved_to-Kept c a p (some d) e t =
    let c' = put c a (some (with_parent a p d)) in
    let k = put-Kept c a d (with_parent a p d) e refl refl t in
    Kept-trans c c' (adopted c' a p (dentry_at c' p)) k
      (adopted-Kept c' a p (dentry_at c' p) refl k.0)

after_unref-Kept : (c : Dcache) (r : Option (Dcache × Ret)) → KeptBy c r → KeptO c (after_unref r)
after_unref-Kept c none k = tt
after_unref-Kept c (some (c', r)) k = k

referenced_parent-Kept :
    (fuel : ℕ) (c : Dcache) (a old p : ℕ) (o : Option Dcache)
    → KeptO c o
    → KeptO c (referenced_parent fuel a old p o)
unfolding referenced_parent
referenced_parent-Kept fuel c a old p none k = tt
referenced_parent-Kept fuel c a old p (some c1) k =
    let c2 = moved_to c1 a p (dentry_at c1 a) in
    let k2 = moved_to-Kept c1 a p (dentry_at c1 a) refl k.0 in
    KeptO-trans c c2 (after_unref (dentry_unref fuel c2 old)) (Kept-trans c c1 c2 k k2)
      (after_unref-Kept c2 (dentry_unref fuel c2 old) (dentry_unref-Kept fuel c2 old k2.0))

ref_at-Kept :
    (c : Dcache) (p : ℕ) (o : Option Dentry)
    → dentry_at c p ≡ o
    → IsTable c
    → KeptO c (ref_at c p o)
ref_at-Kept c p none e t = tt
ref_at-Kept c p (some d) e t =
    put-Kept c p d (record d { d_refcount = d.d_refcount + 1 }) e refl refl t

reparent_listed-Kept :
    (fuel : ℕ) (c : Dcache) (a old p : ℕ) (b : Bool) (q : Option ℕ)
    → IsTable c
    → KeptO c (reparent_listed fuel c a old p b q)
unfolding reparent_listed dentry_ref
reparent_listed-Kept fuel c a old p false q t = tt
reparent_listed-Kept fuel c a old p true q t =
    let c1 = leave_parent c a true q in
    let k = leave_parent-Kept c a true q t in
    referenced_parent-Kept fuel c a old p (ref_at c1 p (dentry_at c1 p)) (
      KeptO-trans c c1 (ref_at c1 p (dentry_at c1 p)) k
        (ref_at-Kept c1 p (dentry_at c1 p) refl k.0))

pub reparented-Kept :
    (fuel : ℕ) (c : Dcache) (a : ℕ) (d : Dentry) (old p : ℕ)
    → IsTable c
    → KeptO c (reparented fuel c a d old p)
unfolding reparented
reparented-Kept fuel c a d old p t = elim (Bool-cases (old == p)) [
  | inl same ↦ rw same (Kept-refl c t)
  | inr moves ↦ rw moves (reparent_listed-Kept fuel c a old p d.in_parent d.d_parent t)
]

rehashed-IsSafe :
    (ext : ℕ → ℕ) (c : Dcache) (a : ℕ) (o : Option ℕ)
    → IsSafe ext c
    → dentry_at c a ≢ none
    → count a c.hashed ≡ 0
    → IsSafe ext (rehashed c a o).0
rehashed-IsSafe ext c a none (sound, t) there out = (
  flagged-IsSound ext (record c { hashed = a ∷ c.hashed }) a dcache_hashed (dentry_at c a) refl
      sound,
  inserted-IsTable c a (dentry_at c a) refl there out t,
)
rehashed-IsSafe ext c a (some b) safe there out = safe

-- Hashing a dentry that has left the table, under any key.
pub rehash-IsSafe :
    (ext : ℕ → ℕ) (c : Dcache) (a p : ℕ) (n : List ℕ)
    → IsSafe ext c
    → dentry_at c a ≢ none
    → count a c.hashed ≡ 0
    → (c' : Dcache) × (r : Ret) × (rehash c a p n ≡ some (c', r)) × IsSafe ext c'
unfolding rehash bucket_head
rehash-IsSafe ext c a p n safe there out = elim (Bool-cases (ltb (length c.hashed) max_items)) [
  | inr full ↦ (c, fail ebusy, rw full refl, safe)
  | inl room ↦
      let (o, walked) = walk_there (in_bucket c (c.bucket p n)) c c.hashed safe.1 in
      (
        (rehashed c a o).0,
        (rehashed c a o).1,
        rw (room, walked) refl,
        rehashed-IsSafe ext c a o safe there out,
      )
]
