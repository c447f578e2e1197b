-- ===== src/Vfs/Dentry/Table.antt =====
-- The hash table of dentries: each node of it is that of a dentry that is there and marked as hashed,
-- and dentry_unref keeps it so.
use oscomp.Common.{
  ℕ, zero, suc, ◌-◌, ◌≤◌, ◌==◌, ◌≡◌, ◌⊎◌, inl, inr, refl, sym, ◌∙◌, ap, Bool, true, false, Option,
  none, some, List, Bool-cases, arith, get_or-set_self, get_or-set_ne, ==_iff,
}
use mathlib.Core.Path.{subst}
use oscomp.Common.Bits.{test_bit}
use oscomp.Common.Errno.{Ret}
use oscomp.Vfs.Inode.{unlink}
use oscomp.Vfs.Inode.Lists.{count, count-unlink, one_if}
use oscomp.Vfs.Dentry.{
  Dentry, Dcache, dentry_at, put, dcache_hashed, unlink_child, leave_parent, leave_hash,
  leave_inode, detached, released, release_parent, given_back, dentry_free, done, counted_down,
  unref_at, dentry_unref,
}
use oscomp.Vfs.Dentry.Refs.{in_range}
use oscomp.Vfs.Dentry.Last.{get_or-set-none}

abbrev pub flag_of : Option Dentry → ℕ
flag_of none = 0
flag_of (some d) = one_if (test_bit d.d_flags dcache_hashed)

-- A dentry is in the table at most once, and only if it is there and has DCACHE_HASHED.
abbrev pub IsTable : Dcache → Type 0
IsTable c = (b : ℕ) → count b c.hashed ≤ flag_of (dentry_at c b)

abbrev pub name_of : Option Dentry → Option (Option (List ℕ))
name_of none = none
name_of (some d) = some d.d_name

abbrev pub NameKept : Dcache → Dcache → ℕ → Type 0
NameKept c c' b =
    (name_of (dentry_at c' b) ≡ none) ⊎ (name_of (dentry_at c' b) ≡ name_of (dentry_at c b))

-- Nothing has come into the table, and a dentry that is still there has its name.
abbrev pub Kept : Dcache → Dcache → Type 0
Kept c c' =
    IsTable c' × ((b : ℕ) → count b c'.hashed ≤ count b c.hashed) × ((b : ℕ) → NameKept c c' b)

pub Kept-refl : (c : Dcache) → IsTable c → Kept c c
Kept-refl c t = (t, λ b. omega arith, λ b. inr refl)

pub Kept-trans : (c c1 c2 : Dcache) → Kept c c1 → Kept c1 c2 → Kept c c2
Kept-trans c c1 c2 (t, n, m) (t', n', m') = (
  t',
  λ b. omega (arith, n b, n' b),
  λ b. elim (m' b) [
    | inl gone ↦ inl gone
    | inr same ↦ elim (m b) [ inl gone ↦ inl (same ∙ gone) | inr same' ↦ inr (same ∙ same') ]
  ],
)

-- A change of a dentry that leaves the mark.
pub put-IsTable :
    (c : Dcache) (a : ℕ) (d d' : Dentry)
    → dentry_at c a ≡ some d
    → flag_of (some d') ≡ flag_of (some d)
    → IsTable c
    → IsTable (put c a (some d'))
put-IsTable c a d d' there flag t =
    let c' = put c a (some d') in
    let here : dentry_at c' a ≡ some d' =
      get_or-set_self c.dentries a (some d') none (in_range c.dentries a d there) in
    let old = ap flag_of there in
    let new = ap flag_of here in
    let marked : count a c'.hashed ≤ flag_of (dentry_at c' a) = omega (arith, t a, old, new) in
    λ b. elim (Bool-cases (a == b)) [
      | inl at ↦
          subst (λ x. count x c'.hashed ≤ flag_of (dentry_at c' x)) ((==_iff a b).0 at) marked
      | inr off ↦ rw (get_or-set_ne c.dentries a b (some d') none (λ e. ground arith)) (t b)
    ]

-- A change of a place that is not in the table.
pub put_out-IsTable :
    (c : Dcache) (a : ℕ) (o : Option Dentry)
    → count a c.hashed ≡ 0
    → IsTable c
    → IsTable (put c a o)
put_out-IsTable c a o gone t =
    let c' = put c a o in
    let out : count a c'.hashed ≤ flag_of (dentry_at c' a) = omega (arith, gone) in
    λ b. elim (Bool-cases (a == b)) [
      | inl at ↦ subst (λ x. count x c'.hashed ≤ flag_of (dentry_at c' x)) ((==_iff a b).0 at) out
      | inr off ↦ rw (get_or-set_ne c.dentries a b o none (λ e. ground arith)) (t b)
    ]

-- One that leaves the name as well.
pub put-Kept :
    (c : Dcache) (a : ℕ) (d d' : Dentry)
    → dentry_at c a ≡ some d
    → flag_of (some d') ≡ flag_of (some d)
    → d'.d_name ≡ d.d_name
    → IsTable c
    → Kept c (put c a (some d'))
put-Kept c a d d' there flag name t =
    let c' = put c a (some d') in
    let here : dentry_at c' a ≡ some d' =
      get_or-set_self c.dentries a (some d') none (in_range c.dentries a d there) in
    (
      put-IsTable c a d d' there flag t,
      λ b. omega arith,
      λ b. elim (Bool-cases (a == b)) [
        | inl at ↦
            subst (λ x. NameKept c c' x) ((==_iff a b).0 at)
              (inr (ap name_of here ∙ ap some name ∙ sym (ap name_of there)))
        | inr off ↦
            inr (ap name_of (get_or-set_ne c.dentries a b (some d') none (λ e. ground arith)))
      ],
    )

unlink_child-Kept :
    (c : Dcache) (a p : ℕ) (o : Option Dentry)
    → dentry_at c p ≡ o
    → IsTable c
    → Kept c (unlink_child c a p o)
unfolding unlink_child
unlink_child-Kept c a p none e t = Kept-refl c t
unlink_child-Kept c a p (some d) e t =
    put-Kept c p d (record d { d_child_list = unlink a d.d_child_list }) e refl refl t

pub leave_parent-Kept :
    (c : Dcache) (a : ℕ) (b : Bool) (p : Option ℕ) → IsTable c → Kept c (leave_parent c a b p)
leave_parent-Kept c a false p t = Kept-refl c t
leave_parent-Kept c a true none t = Kept-refl c t
leave_parent-Kept c a true (some p) t = unlink_child-Kept c a p (dentry_at c p) refl t

-- A dentry has left the table if its mark is heeded.
pub leave_hash-Kept :
    (c : Dcache) (a : ℕ) (h : Bool)
    → IsTable c
    → flag_of (dentry_at c a) ≤ one_if h
    → Kept c (leave_hash c a h) × (count a (leave_hash c a h).hashed ≡ 0)
leave_hash-Kept c a true t f = (
  (
    λ b. ground (arith, t b, count-unlink b a c.hashed),
    λ b. ground (arith, count-unlink b a c.hashed),
    λ b. inr refl,
  ),
  ground (arith, t a, count-unlink a a c.hashed),
)
leave_hash-Kept c a false t f = (Kept-refl c t, omega (arith, t a))

pub leave_inode-Kept : (c : Dcache) (a : ℕ) (i : Option ℕ) → IsTable c → Kept c (leave_inode c a i)
unfolding leave_inode
leave_inode-Kept c a none t = Kept-refl c t
leave_inode-Kept c a (some i) t = (t, λ b. omega arith, λ b. inr refl)

detached-Kept :
    (c : Dcache) (a : ℕ) (d : Dentry)
    → IsTable c
    → flag_of (dentry_at c a) ≤ flag_of (some d)
    → Kept c (detached c a d) × (count a (detached c a d).hashed ≡ 0)
unfolding detached
detached-Kept c a d t f =
    let c1 = leave_hash c a (test_bit d.d_flags dcache_hashed) in
    let c2 = leave_parent c1 a d.in_parent d.d_parent in
    let c3 = leave_inode c2 a d.d_inode in
    let (k1, gone) = leave_hash-Kept c a (test_bit d.d_flags dcache_hashed) t f in
    let k2 = leave_parent-Kept c1 a d.in_parent d.d_parent k1.0 in
    let k3 = leave_inode-Kept c2 a d.d_inode k2.0 in
    (Kept-trans c c2 c3 (Kept-trans c c1 c2 k1 k2) k3, omega (arith, gone, k2.1 a, k3.1 a))

abbrev pub KeptO : Dcache → Option Dcache → Type 0
KeptO c none = Unit
KeptO c (some c') = Kept c c'

abbrev pub KeptBy : Dcache → Option (Dcache × Ret) → Type 0
KeptBy c none = Unit
KeptBy c (some (c', r)) = Kept c c'

pub KeptO-trans : (c c1 : Dcache) (o : Option Dcache) → Kept c c1 → KeptO c1 o → KeptO c o
KeptO-trans c c1 none k h = tt
KeptO-trans c c1 (some c2) k h = Kept-trans c c1 c2 k h

given_back-Kept :
    (c : Dcache) (a : ℕ) (o : Option Dcache)
    → count a c.hashed ≡ 0
    → KeptO c o
    → KeptO c (given_back a o)
given_back-Kept c a none gone k = tt
given_back-Kept c a (some c') gone (t, n, m) =
    let c2 = put c' a none in
    (
      put_out-IsTable c' a none (omega (arith, n a, gone)) t,
      n,
      λ b. elim (Bool-cases (a == b)) [
        | inl at ↦
            subst (λ x. NameKept c c2 x) ((==_iff a b).0 at)
              (inl (ap name_of (get_or-set-none c'.dentries a)))
        | inr off ↦ rw (get_or-set_ne c'.dentries a b none none (λ e. ground arith)) (m b)
      ],
    )

release-Kept :
    (next : Dcache → ℕ → Option (Dcache × Ret))
    → ((c : Dcache) (a : ℕ) → IsTable c → KeptBy c (next c a))
    → (c : Dcache) (p : Option ℕ) → IsTable c
    → KeptO c (release_parent next c p)
release-Kept next ih c none t = Kept-refl c t
release-Kept next ih c (some p) t = go (next c p) (ih c p t)
  where
    go : (r : Option (Dcache × Ret)) → KeptBy c r → KeptO c (released r)
    go none k = tt
    go (some (c', r)) k = k

done-Kept : (c : Dcache) (o : Option Dcache) → KeptO c o → KeptBy c (done o)
done-Kept c none k = tt
done-Kept c (some c') k = k

module _ (next : Dcache → ℕ → Option (Dcache × Ret))
    (ih : (c : Dcache) (a : ℕ) → IsTable c → KeptBy c (next c a)) (c : Dcache) (a : ℕ)
    (t : IsTable c) where
  counted_down-Kept : (d : Dentry) → dentry_at c a ≡ some d → Kept c (counted_down c a d)
  counted_down-Kept d there =
      put-Kept c a d (record d { d_refcount = d.d_refcount - 1 }) there refl refl t

  -- The dentry leaves the table before its memory is given back.
  free-Kept :
      (d : Dentry) → dentry_at c a ≡ some d → KeptO c (dentry_free next (counted_down c a d) a d)
  unfolding dentry_free
  free-Kept d there =
      let d' = record d { d_refcount = d.d_refcount - 1 } in
      let c0 = counted_down c a d in
      let c1 = detached c0 a d in
      let k0 = counted_down-Kept d there in
      let here : dentry_at c0 a ≡ some d' =
        get_or-set_self c.dentries a (some d') none (in_range c.dentries a d there) in
      let flag : flag_of (dentry_at c0 a) ≡ flag_of (some d) = ap flag_of here in
      let (k1, gone) = detached-Kept c0 a d k0.0 (omega arith) in
      KeptO-trans c c1 (given_back a (release_parent next c1 d.d_parent)) (Kept-trans c c0 c1 k0 k1)
        (given_back-Kept c1 a (release_parent next c1 d.d_parent) gone
          (release-Kept next ih c1 d.d_parent k1.0))

  unref_at-Kept : (o : Option Dentry) → dentry_at c a ≡ o → KeptBy c (unref_at next c a o)
  unfolding unref_at
  unref_at-Kept none e = tt
  unref_at-Kept (some d) e = elim (Bool-cases (d.d_refcount == 0)) [
    | inl idle ↦ rw idle (Kept-refl c t)
    | inr used ↦ elim (Bool-cases (d.d_refcount == 1)) [
      | inl last ↦
          rw (used, last) (done-Kept c (dentry_free next (counted_down c a d) a d) (free-Kept d e))
      | inr more ↦ rw (used, more) (counted_down-Kept d e)
    ]
  ]

-- A release of a reference keeps the table: a dentry that is freed has left it.
pub dentry_unref-Kept :
    (fuel : ℕ) (c : Dcache) (a : ℕ) → IsTable c → KeptBy c (dentry_unref fuel c a)
unfolding dentry_unref
dentry_unref-Kept zero c a t = tt
dentry_unref-Kept (suc fuel) c a t =
    unref_at-Kept (λ c' p. dentry_unref fuel c' p) (λ c' p t'. dentry_unref-Kept fuel c' p t') c a t
      (dentry_at c a) refl
