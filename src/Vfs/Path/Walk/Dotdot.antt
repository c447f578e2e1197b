-- ===== src/Vfs/Path/Walk/Dotdot.antt =====
-- A step to the parent that releases the dentry first.
use oscomp.Common.{
  ℕ, suc, ◌<◌, ◌≡◌, ◌≢◌, refl, sym, ◌∙◌, ap, Option, none, some, List, [], ◌∷◌, length, arith,
}
use mathlib.Core.Path.{subst}
use oscomp.Common.Chain.{◌>>=◌}
use oscomp.Vfs.Dentry.{Dentry, Dcache, dentry_at, dentry_unref, released, dentry_ref, ref_at}
use oscomp.Vfs.Dentry.Last.{IsGone, unref_last_two}
use oscomp.Vfs.Dentry.Refs.{in_range}
use oscomp.Vfs.Dentry.Change.{parent_or, parent_of}
use oscomp.Vfs.Dentry.Paths.{slash}
use oscomp.Vfs.Mount.{Tree, with_dcache, take, drop}
use oscomp.Vfs.Path.{World, Walked, Next, dot, cut, up, to_parent_of, component}
use oscomp.Vfs.Path.Walk.{walk}

-- Two places are two rounds.
two_places :
    (l : List (Option Dentry)) (a p : ℕ)
    → a < length l
    → p < length l
    → a ≢ p
    → (n : ℕ) × (length l ≡ suc (suc n))
two_places [] a p h g ne = absurd (omega arith)
two_places (x ∷ []) a p h g ne = absurd (ne (omega arith))
two_places (x ∷ y ∷ l) a p h g ne = (length l, refl)

take_gone :
    (s : Tree) (p : ℕ) (o : Option Dcache) (k : Tree → Option (Tree × Walked))
    → IsGone p o
    → (with_dcache s o >>= (λ s1. take s1 p >>= k)) ≡ none
unfolding take dentry_ref
take_gone s p none k g = refl
take_gone s p (some c) k g = ap (λ o. with_dcache (record s { dcache = c }) (ref_at c p o) >>= k) g

up_faults :
    (next : Next) (s : Tree) (a p : ℕ) (d e : Dentry)
    → dentry_at s.dcache a ≡ some d
    → d.d_refcount ≡ 1
    → d.d_parent ≡ some p
    → dentry_at s.dcache p ≡ some e
    → e.d_refcount ≡ 1
    → a ≢ p
    → up next s a none ≡ none
unfolding up drop
up_faults next s a p d e here one points there once ne =
    let l = s.dcache.dentries in
    let (n, size) = two_places l a p (in_range l a d here) (in_range l p e there) ne in
    let gone : IsGone p (released (dentry_unref (length l) s.dcache a)) =
      subst (λ k. IsGone p (released (dentry_unref k s.dcache a))) (sym size)
        (unref_last_two n s.dcache a p d e here one points there once ne) in
    let same : parent_of a d ≡ p = ap (parent_or a) points in
    ap (to_parent_of next s a none) here
    ∙ ap (λ q. drop s a >>= (λ s1. take s1 q >>= (λ s2. next s2 q none))) same
    ∙ take_gone s p (released (dentry_unref (length l) s.dcache a)) (λ s2. next s2 p none) gone

-- In a walk without a mount that stands at a dentry which nothing else holds, and whose parent nothing
-- but that dentry holds, a component ".." makes the loop of vfs_pathwalk access freed memory, whatever
-- the rest of the path: the dentry is released, and its parent with it, before the parent is referenced.
pub walk_dotdot_faults :
    (w : World) (k : ℕ) (l : List ℕ) (s : Tree) (a p : ℕ) (d e : Dentry)
    → dentry_at s.dcache a ≡ some d
    → d.d_refcount ≡ 1
    → d.d_parent ≡ some p
    → dentry_at s.dcache p ≡ some e
    → e.d_refcount ≡ 1
    → a ≢ p
    → walk w (suc k) (dot ∷ dot ∷ slash ∷ l) s a none ≡ none
unfolding walk component cut
walk_dotdot_faults w k l s a p d e here one points there once ne =
    up_faults (λ s' a' m'. walk w k l s' a' m') s a p d e here one points there once ne
