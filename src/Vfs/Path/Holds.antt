-- ===== src/Vfs/Path/Holds.antt =====
-- References of dentries and of a mount, taken and given back.
use oscomp.Common.{
  ℕ, ◌+◌, ◌≤◌, ◌<◌, ◌≡◌, inl, inr, refl, sym, ◌∙◌, ap, Option-cases, Option, none, some, List, [],
  ◌∷◌, length, arith,
}
use oscomp.Vfs.Dentry.{Dentry, Dcache, dentry_at, put, dentry_ref, ref_at, released}
use oscomp.Vfs.Dentry.Refs.{refs_of, live}
use oscomp.Vfs.Dentry.Acquire.Counts.{plus, IsSafe, raised-IsSound, unref-IsSafe}
use oscomp.Vfs.Dentry.Table.{put-Kept}
use oscomp.Vfs.Mount.{Tree, with_dcache, take, drop}

pub live-le-length : (l : List (Option Dentry)) → live l ≤ length l
live-le-length [] = omega arith
live-le-length (none ∷ l) = let ih = live-le-length l in omega arith
live-le-length (some d ∷ l) = let ih = live-le-length l in ground arith

-- A dentry that is held is there.
pub held_there :
    (ext : ℕ → ℕ) (c : Dcache) (a : ℕ)
    → IsSafe ext c
    → 0 < ext a
    → (d : Dentry) × (dentry_at c a ≡ some d)
held_there ext c a sound held = elim (Option-cases (dentry_at c a)) [
  | inl gone ↦ let n = sym (ap refs_of gone) ∙ sound.0.0 a in absurd (omega arith)
  | inr found ↦ found
]

pub take-IsSafe :
    (ext : ℕ → ℕ) (s : Tree) (a : ℕ)
    → IsSafe ext s.dcache
    → 0 < ext a
    → (c : Dcache) × (take s a ≡ some (record s { dcache = c })) × IsSafe (plus ext a) c
unfolding take dentry_ref
take-IsSafe ext s a sound held =
    let (d, there) = held_there ext s.dcache a sound held in
    let d' = record d { d_refcount = d.d_refcount + 1 } in
    (
      put s.dcache a (some d'),
      ap (λ o. with_dcache s (ref_at s.dcache a o)) there,
      (
        raised-IsSound ext s.dcache.dentries sound.0 a d d' there refl refl,
        (put-Kept s.dcache a d d' there refl refl sound.1).0,
      ),
    )

pub drop-IsSafe :
    (ext : ℕ → ℕ) (s : Tree) (a : ℕ)
    → IsSafe (plus ext a) s.dcache
    → (c : Dcache) × (drop s a ≡ some (record s { dcache = c })) × IsSafe ext c
unfolding drop
drop-IsSafe ext s a sound =
    let (c, e, s', n, k) =
      unref-IsSafe (length s.dcache.dentries) s.dcache a ext sound
        (live-le-length s.dcache.dentries) in
    (c, ap (λ o. with_dcache s (released o)) e, s')

-- Two references more, in either order.
pub swap-IsSafe :
    (ext : ℕ → ℕ) (a b : ℕ) (c : Dcache)
    → IsSafe (plus (plus ext a) b) c
    → IsSafe (plus (plus ext b) a) c
swap-IsSafe ext a b c ((counted, clean), t) = ((λ q. counted q ∙ ground arith, clean), t)
