-- ===== src/Vfs/Dentry/Change/Rename.antt =====
-- dentry_rename keeps the counts.
use oscomp.Common.{
  ℕ, ◌+◌, ◌≤◌, ◌<◌, ◌≡◌, ◌≢◌, refl, sym, ◌∙◌, ap, Option, none, some, List, ◌∷◌, get_or, set, arith,
  get_or-set,
}
use oscomp.Vfs.Dentry.{Dentry, Dcache, dentry_at, put, dentry_unref}
use oscomp.Vfs.Dentry.Refs.{
  refs_of, points_to, holds, held, is_live, live, is_zombie, held-set, live-set, in_range, Alike,
}
use oscomp.Vfs.Dentry.Acquire.Counts.{
  plus, IsSound, counted_ref, same_live, level-IsSound, unref-IsSound,
}
use oscomp.Vfs.Dentry.Change.{with_parent, adopted, moved_to, after_unref, referenced_parent}

pub Alike-IsSound :
    (ext : ℕ → ℕ) (l m : List (Option Dentry)) → Alike l m → IsSound ext l → IsSound ext m
Alike-IsSound ext l m (r, h, n, z) (counted, clean) =
    (λ q. r q ∙ counted q ∙ ap (λ k. ext q + k) (sym (h q)), λ q. z q ∙ clean q)

-- A dentry that points to another parent: the reference to the old one is from outside now.
module _ (ext : ℕ → ℕ) (l : List (Option Dentry)) (a : ℕ) (d : Dentry) (old p : ℕ)
    (sound : IsSound (plus ext p) l) (found : get_or l a none ≡ some d)
    (points : d.d_parent ≡ some old) (apart : p ≢ a) where
  abbrev moved : Dentry
  moved = with_parent a p d

  moved_holds :
      (q : ℕ)
      → held q (set l a (some moved)) + points_to q (some old) ≡ held q l + points_to q (some p)
  moved_holds q =
      let sums = held-set q l a (some moved) (in_range l a d found) in
      let alive = (counted_ref (plus ext p) l sound a d d found refl).1 in
      let now : holds q (some moved) ≡ points_to q (some p) = ground arith in
      let old_holds : holds q (get_or l a none) ≡ points_to q (some old) =
        ap (holds q) found ∙ ground (arith, points) in
      omega arith

  moved-IsSound : IsSound (plus ext old) (set l a (some moved))
  moved-IsSound = (
    λ q. ground (
      arith,
      get_or-set l a q (some moved) none (in_range l a d found),
      moved_holds q,
      sound.0 q,
      ap refs_of found,
    ),
    λ q. ground (
      arith,
      get_or-set l a q (some moved) none (in_range l a d found),
      sound.1 q,
      ap is_zombie found,
    ),
  )

  moved_live : live (set l a (some moved)) ≡ live l
  moved_live =
      let sums = live-set l a (some moved) (in_range l a d found) in
      let now : is_live (some moved) ≡ is_live (some d) = refl in
      let before : is_live (get_or l a none) ≡ is_live (some d) = ap is_live found in omega arith

pub child_held :
    (l : List (Option Dentry)) (b p : ℕ) (e : Dentry)
    → get_or l b none ≡ some e
    → e.d_parent ≡ some p
    → e.d_refcount ≢ 0
    → 0 < held p l
child_held l b p e found points alive =
    let sums = held-set p l b none (in_range l b e found) in
    let one : holds p (get_or l b none) ≡ 1 = ap (holds p) found ∙ ground (arith, points) in
    omega arith

pub level_live :
    (ext : ℕ → ℕ) (l : List (Option Dentry)) (sound : IsSound ext l) (a : ℕ) (d d' : Dentry)
    → get_or l a none ≡ some d
    → d'.d_parent ≡ d.d_parent
    → d'.d_refcount ≡ d.d_refcount
    → live (set l a (some d')) ≡ live l
level_live ext l sound a d d' found parent same =
    let alive = (counted_ref ext l sound a d d' found parent).1 in
    same_live ext l sound a d d' found parent (λ z. alive (sym same ∙ z))

adopted-IsSound :
    (ext : ℕ → ℕ) (c : Dcache) (a p : ℕ) (o : Option Dentry)
    → dentry_at c p ≡ o
    → IsSound ext c.dentries
    → IsSound ext (adopted c a p o).dentries × (live (adopted c a p o).dentries ≡ live c.dentries)
adopted-IsSound ext c a p none e sound = (sound, refl)
adopted-IsSound ext c a p (some d) e sound =
    let d' = record d { d_child_list = a ∷ d.d_child_list } in
    (
      level-IsSound ext c.dentries sound p d d' e refl refl,
      level_live ext c.dentries sound p d d' e refl refl,
    )

-- With a reference to the new parent taken, the dentry moves and the old parent is released.
pub referenced-IsSound :
    (fuel : ℕ) (ext : ℕ → ℕ) (c : Dcache) (a old p : ℕ) (d : Dentry)
    → IsSound (plus ext p) c.dentries
    → live c.dentries ≤ fuel
    → dentry_at c a ≡ some d
    → d.d_parent ≡ some old
    → p ≢ a
    → (c' : Dcache) × (referenced_parent fuel a old p (some c) ≡ some c') × IsSound ext c'.dentries
unfolding referenced_parent
referenced-IsSound fuel ext c a old p d sound enough found points apart =
    let c2 = put c a (some (with_parent a p d)) in
    let c3 = moved_to c a p (some d) in
    let s2 : IsSound (plus ext old) c2.dentries =
      moved-IsSound ext c.dentries a d old p sound found points apart in
    let n2 : live c2.dentries ≡ live c.dentries =
      moved_live ext c.dentries a d old p sound found points apart in
    let (s3, n3) = adopted-IsSound (plus ext old) c2 a p (dentry_at c2 p) refl s2 in
    let (c', e, s, n) = unref-IsSound fuel c3 old ext s3 (omega arith) in
    (
      c',
      ap (λ o. after_unref (dentry_unref fuel (moved_to c a p o) old)) found ∙ ap after_unref e,
      s,
    )
