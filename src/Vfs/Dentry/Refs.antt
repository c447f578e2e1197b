-- ===== src/Vfs/Dentry/Refs.antt =====
-- The counts of dentries: what is held of each, and the changes that keep it.
use oscomp.Common.{
  ℕ, zero, suc, ◌+◌, ◌<◌, ◌==◌, ◌≡◌, refl, sym, ◌∙◌, ap, Bool, true, false, not, ◌&&◌, Option, none,
  some, List, [], ◌∷◌, length, get_or, set, if◌then◌else◌, arith,
}
use oscomp.Common.Bits.{test_bit}
use oscomp.Vfs.Inode.{unlink}
use oscomp.Vfs.Dentry.{
  Dentry, Dcache, dentry_at, unlink_child, leave_parent, leave_hash, leave_inode, detached,
  dcache_hashed,
}

-- The count of a place, 0 where no dentry is.
abbrev pub refs_of : Option Dentry → ℕ
refs_of none = 0
refs_of (some d) = d.d_refcount

abbrev pub points_to : ℕ → Option ℕ → ℕ
points_to p none = 0
points_to p (some q) = if q == p then 1 else 0

-- What a dentry with a reference holds of its parent.
abbrev pub holds : ℕ → Option Dentry → ℕ
holds p none = 0
holds p (some d) = if d.d_refcount == 0 then 0 else points_to p d.d_parent

abbrev pub held : ℕ → List (Option Dentry) → ℕ
held p [] = 0
held p (o ∷ l) = holds p o + held p l

-- The number of dentries that have references.
abbrev pub is_live : Option Dentry → ℕ
is_live none = 0
is_live (some d) = if d.d_refcount == 0 then 0 else 1

abbrev pub live : List (Option Dentry) → ℕ
live [] = 0
live (o ∷ l) = is_live o + live l

-- A dentry without references whose memory is not given back.
abbrev pub is_zombie : Option Dentry → Bool
is_zombie none = false
is_zombie (some d) = d.d_refcount == 0

-- `ext` are the references from outside.
abbrev pub Counted : (ℕ → ℕ) → List (Option Dentry) → Type 0
Counted ext l = (p : ℕ) → refs_of (get_or l p none) ≡ ext p + held p l

pub held-set :
    (p : ℕ) (l : List (Option Dentry)) (a : ℕ) (o : Option Dentry)
    → a < length l
    → held p (set l a o) + holds p (get_or l a none) ≡ held p l + holds p o
held-set p [] a o h = absurd (omega arith)
held-set p (x ∷ l) zero o h = omega arith
held-set p (x ∷ l) (suc a) o h = let ih = held-set p l a o (omega arith) in omega (arith, ih)

pub live-set :
    (l : List (Option Dentry)) (a : ℕ) (o : Option Dentry)
    → a < length l
    → live (set l a o) + is_live (get_or l a none) ≡ live l + is_live o
live-set [] a o h = absurd (omega arith)
live-set (x ∷ l) zero o h = omega arith
live-set (x ∷ l) (suc a) o h = let ih = live-set l a o (omega arith) in omega (arith, ih)

pub in_range :
    (l : List (Option Dentry)) (a : ℕ) (d : Dentry) → get_or l a none ≡ some d → a < length l
in_range [] a d e = absurd (cc)
in_range (x ∷ l) zero d e = omega arith
in_range (x ∷ l) (suc a) d e = let ih = in_range l a d e in omega (arith, ih)

pub live-pos : (l : List (Option Dentry)) (a : ℕ) → 0 < refs_of (get_or l a none) → 0 < live l
live-pos [] a h = h
live-pos (none ∷ l) zero h = absurd (omega arith)
live-pos (some d ∷ l) zero h = ground arith
live-pos (x ∷ l) (suc a) h = let ih = live-pos l a h in omega (arith, ih)

-- Two lists that differ in nothing that is counted.
abbrev pub Alike : List (Option Dentry) → List (Option Dentry) → Type 0
Alike l l' =
    ((q : ℕ) → refs_of (get_or l' q none) ≡ refs_of (get_or l q none))
    × ((q : ℕ) → held q l' ≡ held q l)
    × (live l' ≡ live l)
    × ((q : ℕ) → is_zombie (get_or l' q none) ≡ is_zombie (get_or l q none))

Alike-refl : (l : List (Option Dentry)) → Alike l l
Alike-refl l = (λ q. refl, λ q. refl, refl, λ q. refl)

Alike-trans : (l m n : List (Option Dentry)) → Alike l m → Alike m n → Alike l n
Alike-trans l m n (a, b, c, d) (a', b', c', d') =
    (λ q. a' q ∙ a q, λ q. b' q ∙ b q, c' ∙ c, λ q. d' q ∙ d q)

-- A reading of the places, of two lists.
cons-cong :
    {X : Type 0} (f : Option Dentry → X) (x y : Option Dentry) (l m : List (Option Dentry))
    → f x ≡ f y
    → ((q : ℕ) → f (get_or l q none) ≡ f (get_or m q none))
    → (q : ℕ) → f (get_or (x ∷ l) q none) ≡ f (get_or (y ∷ m) q none)
cons-cong f x y l m e h zero = e
cons-cong f x y l m e h (suc q) = h q

set-Alike :
    (l : List (Option Dentry)) (p : ℕ) (d : Dentry) (kids : List ℕ)
    → get_or l p none ≡ some d
    → Alike l (set l p (some (record d { d_child_list = kids })))
set-Alike [] p d kids e = absurd (cc)
set-Alike (x ∷ l) zero d kids e =
    let d' = some (record d { d_child_list = kids }) in
    rw e (
      cons-cong refs_of d' (some d) l l refl (λ q. refl),
      λ q. refl,
      refl,
      cons-cong is_zombie d' (some d) l l refl (λ q. refl),
    )
set-Alike (x ∷ l) (suc p) d kids e =
    let (a, b, c, z) = set-Alike l p d kids e in
    let l' = set l p (some (record d { d_child_list = kids })) in
    (
      cons-cong refs_of x x l' l refl a,
      λ q. ap (λ n. holds q x + n) (b q),
      ap (λ n. is_live x + n) c,
      cons-cong is_zombie x x l' l refl z,
    )

pub holds-zero : (q : ℕ) (o : Option Dentry) → refs_of o ≡ 0 → holds q o ≡ 0
holds-zero q none h = refl
holds-zero q (some d) h = ground arith

is_live-zero : (o : Option Dentry) → refs_of o ≡ 0 → is_live o ≡ 0
is_live-zero none h = refl
is_live-zero (some d) h = ground arith

-- What a place without references is does not count.
abbrev pub Buried : List (Option Dentry) → ℕ → Type 0
Buried l a =
    ((q : ℕ) → refs_of (get_or (set l a none) q none) ≡ refs_of (get_or l q none))
    × ((q : ℕ) → held q (set l a none) ≡ held q l)
    × (live (set l a none) ≡ live l)
    × ((q : ℕ)
        → is_zombie (get_or (set l a none) q none) ≡ (not (a == q) && is_zombie (get_or l q none)))

pub set_none-Buried :
    (l : List (Option Dentry)) (a : ℕ) → refs_of (get_or l a none) ≡ 0 → Buried l a
set_none-Buried [] a h = (λ q. refl, λ q. refl, refl, λ q. ground arith)
set_none-Buried (x ∷ l) zero h = (
  cons-cong refs_of none x l l (sym h) (λ q. refl),
  λ q. omega (arith, holds-zero q x h),
  omega (arith, is_live-zero x h),
  zombies,
)
  where
    zombies :
        (q : ℕ)
        → is_zombie (get_or (none ∷ l) q none) ≡ (not (0 == q) && is_zombie (get_or (x ∷ l) q none))
    zombies zero = refl
    zombies (suc q) = ground arith
set_none-Buried (x ∷ l) (suc a) h =
    let (r, h', n, z) = set_none-Buried l a h in
    (
      cons-cong refs_of x x (set l a none) l refl r,
      λ q. ap (λ n. holds q x + n) (h' q),
      ap (λ n. is_live x + n) n,
      zombies z,
    )
  where
    zombies :
        ((q : ℕ)
          → is_zombie (get_or (set l a none) q none)
            ≡ (not (a == q) && is_zombie (get_or l q none)))
        → (q : ℕ)
        → is_zombie (get_or (x ∷ set l a none) q none)
          ≡ (not (suc a == q) && is_zombie (get_or (x ∷ l) q none))
    zombies z zero = ground arith
    zombies z (suc q) = ground (arith, z q)

unlink_child-Alike :
    (c : Dcache) (a p : ℕ) (o : Option Dentry)
    → dentry_at c p ≡ o
    → Alike c.dentries (unlink_child c a p o).dentries
unfolding unlink_child
unlink_child-Alike c a p none e = Alike-refl c.dentries
unlink_child-Alike c a p (some d) e = set-Alike c.dentries p d (unlink a d.d_child_list) e

pub leave_parent-Alike :
    (c : Dcache) (a : ℕ) (b : Bool) (p : Option ℕ)
    → Alike c.dentries (leave_parent c a b p).dentries
leave_parent-Alike c a false p = Alike-refl c.dentries
leave_parent-Alike c a true none = Alike-refl c.dentries
leave_parent-Alike c a true (some p) = unlink_child-Alike c a p (dentry_at c p) refl

pub leave_hash-Alike :
    (c : Dcache) (a : ℕ) (b : Bool) → Alike c.dentries (leave_hash c a b).dentries
leave_hash-Alike c a true = Alike-refl c.dentries
leave_hash-Alike c a false = Alike-refl c.dentries

pub leave_inode-Alike :
    (c : Dcache) (a : ℕ) (i : Option ℕ) → Alike c.dentries (leave_inode c a i).dentries
unfolding leave_inode
leave_inode-Alike c a none = Alike-refl c.dentries
leave_inode-Alike c a (some i) = Alike-refl c.dentries

pub detached-Alike : (c : Dcache) (a : ℕ) (d : Dentry) → Alike c.dentries (detached c a d).dentries
unfolding detached
detached-Alike c a d =
    let c1 = leave_hash c a (test_bit d.d_flags dcache_hashed) in
    let c2 = leave_parent c1 a d.in_parent d.d_parent in
    let c3 = leave_inode c2 a d.d_inode in
    Alike-trans c.dentries c1.dentries c3.dentries
      (leave_hash-Alike c a (test_bit d.d_flags dcache_hashed))
      (Alike-trans c1.dentries c2.dentries c3.dentries
        (leave_parent-Alike c1 a d.in_parent d.d_parent) (leave_inode-Alike c2 a d.d_inode))
