-- ===== src/Vfs/Dentry/Acquire/Counts.antt =====
-- dentry_acquire keeps the counts, and gives its caller one reference of what it returns.
use oscomp.Common.{
  ℕ, ◌+◌, ◌≤◌, ◌==◌, ◌≡◌, ◌≢◌, inl, inr, refl, sym, ◌∙◌, ap, false, Option, none, some, List,
  get_or, set, if◌then◌else◌, Bool-cases, arith, get_or-set,
}
use mathlib.Core.Path.{subst}
use oscomp.Common.Errno.{ok}
use oscomp.Vfs.Dentry.{Dentry, Dcache, dentry_unref}
use oscomp.Vfs.Dentry.Refs.{
  refs_of, holds, held, is_live, live, is_zombie, Counted, held-set, live-set, in_range,
}
use oscomp.Vfs.Dentry.Unref.{dentry_unref-Released}
use oscomp.Vfs.Dentry.Table.{IsTable, Kept, KeptBy, dentry_unref-Kept}

-- One reference more from outside.
abbrev pub plus : (ℕ → ℕ) → ℕ → ℕ → ℕ
plus ext a q = if a == q then ext q + 1 else ext q

-- The counts are right, and no dentry without references keeps its memory.
abbrev pub IsSound : (ℕ → ℕ) → List (Option Dentry) → Type 0
IsSound ext l = Counted ext l × ((q : ℕ) → is_zombie (get_or l q none) ≡ false)

-- The counts are right, and so is the hash table.
abbrev pub IsSafe : (ℕ → ℕ) → Dcache → Type 0
IsSafe ext c = IsSound ext c.dentries × IsTable c

module _ (ext : ℕ → ℕ) (l : List (Option Dentry)) (sound : IsSound ext l) (a : ℕ) (d d' : Dentry)
    (found : get_or l a none ≡ some d) (same_parent : d'.d_parent ≡ d.d_parent) where
  pub counted_ref : (d.d_refcount ≡ ext a + held a l) × (d.d_refcount ≢ 0)
  counted_ref = (
    ap refs_of (sym found) ∙ sound.0 a,
    λ e. let z = ap is_zombie (sym found) ∙ sound.1 a in ground arith,
  )

  pub same_holds : (q : ℕ) → d'.d_refcount ≢ 0 → held q (set l a (some d')) ≡ held q l
  same_holds q pos =
      let sums = held-set q l a (some d') (in_range l a d found) in
      let mine = counted_ref.1 in
      let same : holds q (some d') ≡ holds q (some d) = ground arith in
      let old : holds q (get_or l a none) ≡ holds q (some d) = ap (holds q) found in omega arith

  pub same_live : d'.d_refcount ≢ 0 → live (set l a (some d')) ≡ live l
  same_live pos =
      let sums = live-set l a (some d') (in_range l a d found) in
      let mine = counted_ref.1 in
      let same : is_live (some d') ≡ is_live (some d) = ground arith in
      let old : is_live (get_or l a none) ≡ is_live (some d) = ap is_live found in omega arith

  pub set-IsSound :
      (ext' : ℕ → ℕ)
      → d'.d_refcount ≢ 0
      → ((q : ℕ) → q ≢ a → ext' q ≡ ext q)
      → d'.d_refcount ≡ ext' a + held a l
      → IsSound ext' (set l a (some d'))
  set-IsSound ext' pos others mine = (
    λ q. elim (Bool-cases (a == q)) [
      | inl same ↦
          ground (arith, get_or-set l a q (some d') none (in_range l a d found), same_holds q pos)
      | inr apart ↦ ground (
        arith,
        get_or-set l a q (some d') none (in_range l a d found),
        same_holds q pos,
        others q,
        sound.0 q,
      )
    ],
    λ q. ground (arith, get_or-set l a q (some d') none (in_range l a d found), sound.1 q),
  )

  pub raised-IsSound : d'.d_refcount ≡ d.d_refcount + 1 → IsSound (plus ext a) (set l a (some d'))
  raised-IsSound more =
      set-IsSound (plus ext a) (omega arith) (λ q ne. ground arith) (ground (arith, counted_ref.0))

  pub level-IsSound : d'.d_refcount ≡ d.d_refcount → IsSound ext (set l a (some d'))
  level-IsSound same =
      set-IsSound ext (ground (arith, counted_ref.1)) (λ q ne. refl) (same ∙ counted_ref.0)

pub unref-IsSound :
    (fuel : ℕ) (c : Dcache) (a : ℕ) (ext : ℕ → ℕ)
    → IsSound (plus ext a) c.dentries
    → live c.dentries ≤ fuel
    → (c' : Dcache) × (dentry_unref fuel c a ≡ some (c', ok 0))
      × IsSound ext c'.dentries
      × (live c'.dentries ≤ fuel)
unref-IsSound fuel c a ext (counted, clean) enough =
    let (c', e, (cnt, h, n, z)) =
      dentry_unref-Released fuel c a (plus ext a) counted (ground arith) enough in
    (
      c',
      e,
      (
        λ q. cnt q ∙ ground arith,
        λ q. elim (Bool-cases (is_zombie (get_or c'.dentries q none))) [
          | inl bad ↦ ground (arith, z q bad, clean q)
          | inr fine ↦ fine
        ],
      ),
      omega arith,
    )

-- A release keeps the table as well, and the names.
pub unref-IsSafe :
    (fuel : ℕ) (c : Dcache) (a : ℕ) (ext : ℕ → ℕ)
    → IsSafe (plus ext a) c
    → live c.dentries ≤ fuel
    → (c' : Dcache) × (dentry_unref fuel c a ≡ some (c', ok 0))
      × IsSafe ext c'
      × (live c'.dentries ≤ fuel)
      × Kept c c'
unref-IsSafe fuel c a ext (sound, t) enough =
    let (c', e, s, n) = unref-IsSound fuel c a ext sound enough in
    let k : Kept c c' = subst (KeptBy c) e (dentry_unref-Kept fuel c a t) in (c', e, (s, k.0), n, k)
