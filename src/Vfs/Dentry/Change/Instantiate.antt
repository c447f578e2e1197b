-- ===== src/Vfs/Dentry/Change/Instantiate.antt =====
-- dentry_instantiate with a good inode keeps the counts of dentries.
use oscomp.Common.{
  ℕ, ◌+◌, ◌%◌, ◌^◌, ◌-◌, ◌==◌, ◌≡◌, refl, ◌∙◌, ap, Bool, true, false, Bool-cases, inl, inr, Option,
  none, some, ◌∷◌, not, ◌&&◌, if◌then◌else◌, ==_iff,
}
use oscomp.Common.Errno.{Ret, ok}
use oscomp.Vfs.Inode.{Inode, Inodes, with_inode, is_dirty, inode_ref, inode_unref}
use oscomp.Vfs.Dentry.{Dentry, Dcache, dentry_at, leave_inode}
use oscomp.Vfs.Dentry.Refs.{leave_inode-Alike}
use oscomp.Vfs.Dentry.Acquire.Counts.{IsSound, level-IsSound}
use oscomp.Vfs.Dentry.Change.{with_d_inode, instantiated, instantiate_at, dentry_instantiate}
use oscomp.Vfs.Dentry.Table.{IsTable, put-Kept, leave_inode-Kept}
use oscomp.Vfs.Dentry.Change.Rename.{Alike-IsSound}

abbrev pub has_op : Inodes → ℕ → Bool
has_op s j = (s.inode j).i_op

with_inode-op :
    (s : Inodes) (i j : ℕ) (v : Inode)
    → v.i_op ≡ has_op s i
    → has_op (with_inode s i v) j ≡ has_op s j
with_inode-op s i j v e =
    let split = λ (b : Bool). (if b then v else s.inode j).i_op in
    elim (Bool-cases (i == j)) [
      | inl at ↦ ap split at ∙ e ∙ ap (has_op s) ((==_iff i j).0 at)
      | inr off ↦ ap split off
    ]

pub inode_ref-op : (s : Inodes) (i j : ℕ) → has_op (inode_ref s i).0 j ≡ has_op s j
unfolding inode_ref
inode_ref-op s i j =
    let v = record (s.inode i) { i_refcount = ((s.inode i).i_refcount + 1) % 2 ^ 32 } in
    let chosen : Bool → Inodes × Bool = λ b. if b then (with_inode s i v, true) else (s, false) in
    let split = λ (b : Bool). has_op (chosen b).0 j in
    elim (Bool-cases (has_op s i)) [
      | inl good ↦ ap split good ∙ with_inode-op s i j v refl
      | inr bad ↦ ap split bad
    ]

inode_unref-op : (s : Inodes) (i j : ℕ) → has_op (inode_unref s i) j ≡ has_op s j
unfolding inode_unref
inode_unref-op s i j =
    let v' = record (s.inode i) { i_refcount = ((s.inode i).i_refcount + (2 ^ 32 - 1)) % 2 ^ 32 } in
    let s' = with_inode s i v' in
    let same : has_op s' j ≡ has_op s j = with_inode-op s i j v' refl in
    elim (Bool-cases ((s'.inode i).i_refcount == 0 && not (is_dirty (s'.inode i)))) [
      | inl unused ↦ rw unused same
      | inr used ↦ rw used same
    ]

pub inode_ref-there : (s : Inodes) (i : ℕ) → (inode_ref s i).1 ≡ has_op s i
unfolding inode_ref
inode_ref-there s i = elim (Bool-cases (has_op s i)) [
  | inl good ↦ rw good refl
  | inr bad ↦ rw bad refl
]

leave_inode-op :
    (c : Dcache) (b j : ℕ) (i : Option ℕ) → has_op (leave_inode c b i).inodes j ≡ has_op c.inodes j
unfolding leave_inode
leave_inode-op c b j none = refl
leave_inode-op c b j (some i) = inode_unref-op c.inodes i j

with_d_inode-IsSound :
    (ext : ℕ → ℕ) (c : Dcache) (b : ℕ) (i : Option ℕ) (o : Option Dentry)
    → dentry_at c b ≡ o
    → IsSound ext c.dentries
    → IsSound ext (with_d_inode c b i o).dentries
with_d_inode-IsSound ext c b i none e sound = sound
with_d_inode-IsSound ext c b i (some d) e sound =
    level-IsSound ext c.dentries sound b d (record d { d_inode = i }) e refl refl

pub dentry_instantiate-IsSound :
    (ext : ℕ → ℕ) (c : Dcache) (b j : ℕ) (d : Dentry)
    → IsSound ext c.dentries
    → dentry_at c b ≡ some d
    → has_op c.inodes j ≡ true
    → (c' : Dcache) × (dentry_instantiate c b j ≡ some (c', ok 0)) × IsSound ext c'.dentries
unfolding dentry_instantiate
dentry_instantiate-IsSound ext c b j d sound there good =
    let c1 = leave_inode c b d.d_inode in
    let s1 = Alike-IsSound ext c.dentries c1.dentries (leave_inode-Alike c b d.d_inode) sound in
    let good1 : (inode_ref c1.inodes j).1 ≡ true =
      inode_ref-there c1.inodes j ∙ leave_inode-op c b j d.d_inode ∙ good in
    let c2 = with_d_inode c1 b (some j) (dentry_at c1 b) in
    let s2 = with_d_inode-IsSound ext c1 b (some j) (dentry_at c1 b) refl s1 in
    (
      record c2 {
        inodes = (inode_ref c1.inodes j).0;
        aliases = λ k. if j == k then b ∷ c2.aliases k else c2.aliases k;
      },
      ap (instantiate_at c b j) there
          ∙ ap (λ t. instantiated c1 b j ((inode_ref c1.inodes j).0, t)) good1,
      s2,
    )

-- What a result leaves in the hash table.
abbrev pub TableBy : Option (Dcache × Ret) → Type 0
TableBy none = Unit
TableBy (some (c, r)) = IsTable c

with_d_inode-IsTable :
    (c : Dcache) (a : ℕ) (i : Option ℕ) (o : Option Dentry)
    → dentry_at c a ≡ o
    → IsTable c
    → IsTable (with_d_inode c a i o)
with_d_inode-IsTable c a i none e t = t
with_d_inode-IsTable c a i (some d) e t =
    (put-Kept c a d (record d { d_inode = i }) e refl refl t).0

instantiated-IsTable :
    (c : Dcache) (a i : ℕ) (r : Inodes × Bool) → IsTable c → TableBy (instantiated c a i r)
instantiated-IsTable c a i (s, false) t = tt
instantiated-IsTable c a i (s, true) t = with_d_inode-IsTable c a (some i) (dentry_at c a) refl t

instantiate_at-IsTable :
    (c : Dcache) (a i : ℕ) (o : Option Dentry) → IsTable c → TableBy (instantiate_at c a i o)
unfolding instantiate_at
instantiate_at-IsTable c a i none t = tt
instantiate_at-IsTable c a i (some d) t =
    let c' = leave_inode c a d.d_inode in
    instantiated-IsTable c' a i (inode_ref c'.inodes i) (leave_inode-Kept c a d.d_inode t).0

pub dentry_instantiate-IsTable :
    (c : Dcache) (a i : ℕ) → IsTable c → TableBy (dentry_instantiate c a i)
unfolding dentry_instantiate
dentry_instantiate-IsTable c a i t = instantiate_at-IsTable c a i (dentry_at c a) t
