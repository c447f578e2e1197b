-- ===== src/Vfs/Dentry/Last.antt =====
-- The release of a dentry that only its caller holds, and whose parent only it holds.
use oscomp.Common.{
  ℕ, zero, suc, ◌-◌, ◌≡◌, ◌≢◌, refl, sym, ◌∙◌, ap, Option-cases, inl, inr, Option, none, some, List,
  [], ◌∷◌, get_or, set, get_or-set_ne, arith,
}
use mathlib.Core.Path.{subst}
use oscomp.Common.Errno.{Ret}
use oscomp.Vfs.Dentry.{
  Dentry, Dcache, dentry_at, detached, released, release_parent, given_back, dentry_free, done,
  counted_down, unref_at, dentry_unref,
}
use oscomp.Vfs.Dentry.Refs.{refs_of, detached-Alike}

-- The place is empty, if a result is there.
abbrev pub IsGone : ℕ → Option Dcache → Type 0
IsGone p none = Unit
IsGone p (some c) = dentry_at c p ≡ none

pub get_or-set-none : (l : List (Option Dentry)) (p : ℕ) → get_or (set l p none) p none ≡ none
get_or-set-none [] p = refl
get_or-set-none (x ∷ l) zero = refl
get_or-set-none (x ∷ l) (suc p) = get_or-set-none l p

given_back-IsGone : (p : ℕ) (o : Option Dcache) → IsGone p (given_back p o)
given_back-IsGone p none = tt
given_back-IsGone p (some c) = get_or-set-none c.dentries p

given_back-IsGone_other :
    (a p : ℕ) (o : Option Dcache) → a ≢ p → IsGone p o → IsGone p (given_back a o)
given_back-IsGone_other a p none ne g = tt
given_back-IsGone_other a p (some c) ne g = get_or-set_ne c.dentries a p none none ne ∙ g

released-done : (o : Option Dcache) → released (done o) ≡ o
released-done none = refl
released-done (some c) = refl

-- The last reference of a dentry frees it.
unref_at_last :
    (next : Dcache → ℕ → Option (Dcache × Ret)) (c : Dcache) (a : ℕ) (d : Dentry)
    → d.d_refcount ≡ 1
    → unref_at next c a (some d) ≡ done (dentry_free next (counted_down c a d) a d)
unfolding unref_at
unref_at_last next c a d one = rw one refl

unref_last :
    (fuel : ℕ) (c : Dcache) (a : ℕ) (d : Dentry)
    → dentry_at c a ≡ some d
    → d.d_refcount ≡ 1
    → released (dentry_unref (suc fuel) c a)
      ≡ given_back a (
          release_parent
            (λ c' q. dentry_unref fuel c' q)
            (detached (counted_down c a d) a d)
            d.d_parent)
unfolding dentry_unref dentry_free
unref_last fuel c a d here one =
    let next : Dcache → ℕ → Option (Dcache × Ret) = λ c' q. dentry_unref fuel c' q in
    ap released (ap (unref_at next c a) here ∙ unref_at_last next c a d one)
    ∙ released-done (dentry_free next (counted_down c a d) a d)

-- The parent has one reference still when the child leaves it.
parent_there :
    (c : Dcache) (a p : ℕ) (d e : Dentry)
    → dentry_at c p ≡ some e
    → e.d_refcount ≡ 1
    → a ≢ p
    → (e' : Dentry) × (dentry_at (detached (counted_down c a d) a d) p ≡ some e')
      × (e'.d_refcount ≡ 1)
parent_there c a p d e there once ne =
    let c0 = counted_down c a d in
    let c1 = detached c0 a d in
    let d' = record d { d_refcount = d.d_refcount - 1 } in
    let same : refs_of (dentry_at c1 p) ≡ 1 =
      (detached-Alike c0 a d).0 p
      ∙ ap refs_of (get_or-set_ne c.dentries a p (some d') none ne ∙ there)
      ∙ once in
    elim (Option-cases (dentry_at c1 p)) [
      | inl gone ↦ let none_left = sym (ap refs_of gone) ∙ same in absurd (omega arith)
      | inr (e', found) ↦ (e', found, sym (ap refs_of found) ∙ same)
    ]

-- A dentry with one reference, whose parent has one too: after the release of the dentry the place of
-- the parent is empty.
pub unref_last_two :
    (fuel : ℕ) (c : Dcache) (a p : ℕ) (d e : Dentry)
    → dentry_at c a ≡ some d
    → d.d_refcount ≡ 1
    → d.d_parent ≡ some p
    → dentry_at c p ≡ some e
    → e.d_refcount ≡ 1
    → a ≢ p
    → IsGone p (released (dentry_unref (suc (suc fuel)) c a))
unref_last_two fuel c a p d e here one points there once ne =
    let next : Dcache → ℕ → Option (Dcache × Ret) = λ c' q. dentry_unref (suc fuel) c' q in
    let c1 = detached (counted_down c a d) a d in
    let (e', found, once') = parent_there c a p d e there once ne in
    let freed : IsGone p (released (dentry_unref (suc fuel) c1 p)) =
      subst (IsGone p) (sym (unref_last fuel c1 p e' found once')) (
        given_back-IsGone p (
          release_parent (λ c' q. dentry_unref fuel c' q) (detached (counted_down c1 p e') p e')
            e'.d_parent)) in
    subst (IsGone p)
      (sym (
        unref_last (suc fuel) c a d here one
        ∙ ap (λ o. given_back a (release_parent next c1 o)) points))
      (given_back-IsGone_other a p (released (dentry_unref (suc fuel) c1 p)) ne freed)
