-- ===== src/Vfs/Dentry/Unref.antt =====
-- dentry_unref: each count stays that of the references held outside and by children.
use oscomp.Common.{
  ℕ, zero, suc, ◌+◌, ◌-◌, ◌≤◌, ◌<◌, ◌==◌, ◌≡◌, ◌≢◌, ◌⊎◌, inl, inr, refl, sym, ◌∙◌, ap, Bool, true,
  not, ◌&&◌, Option, none, some, List, get_or, set, if◌then◌else◌, Bool-cases, Option-cases, arith,
  get_or-set,
}
use oscomp.Common.Errno.{Ret, ok}
use oscomp.Vfs.Dentry.{
  Dentry, Dcache, put, detached, released, release_parent, given_back, dentry_free, done,
  counted_down, unref_at, dentry_unref,
}
use oscomp.Vfs.Dentry.Refs.{
  refs_of, points_to, holds, held, is_live, live, is_zombie, Counted, held-set, live-set, in_range,
  live-pos, Alike, set_none-Buried, detached-Alike,
}

-- One reference less from outside.
abbrev pub minus : (ℕ → ℕ) → ℕ → ℕ → ℕ
minus ext a q = if a == q then ext q - 1 else ext q

-- What releasing a reference leaves: the counts are right, nothing is held more than before, and no
-- dentry is left without references that was not before.
abbrev pub Released : (ℕ → ℕ) → List (Option Dentry) → List (Option Dentry) → Type 0
Released ext l l' =
    Counted ext l'
    × ((q : ℕ) → held q l' ≤ held q l)
    × (live l' ≤ live l)
    × ((q : ℕ) → is_zombie (get_or l' q none) ≡ true → is_zombie (get_or l q none) ≡ true)

module _ (l : List (Option Dentry)) (a : ℕ) (d : Dentry) (found : get_or l a none ≡ some d) where
  lowered : List (Option Dentry)
  lowered = set l a (some (record d { d_refcount = d.d_refcount - 1 }))

  refs-lowered :
      (q : ℕ)
      → refs_of (get_or lowered q none)
        ≡ (if a == q then d.d_refcount - 1 else refs_of (get_or l q none))
  unfolding lowered
  refs-lowered q =
      let d' = some (record d { d_refcount = d.d_refcount - 1 }) in
      rw (get_or-set l a q d' none (in_range l a d found)) (ground arith)

  -- The reference is not the last.
  more-holds : (q : ℕ) → 1 < d.d_refcount → held q lowered ≡ held q l
  unfolding lowered
  more-holds q more =
      let d' = record d { d_refcount = d.d_refcount - 1 } in
      let sums = held-set q l a (some d') (in_range l a d found) in
      let same : holds q (some d') ≡ holds q (some d) = ground arith in
      let old : holds q (get_or l a none) ≡ holds q (some d) = ap (holds q) found in omega arith

  more-live : 1 < d.d_refcount → live lowered ≡ live l
  unfolding lowered
  more-live more =
      let d' = record d { d_refcount = d.d_refcount - 1 } in
      let sums = live-set l a (some d') (in_range l a d found) in
      let same : is_live (some d') ≡ is_live (some d) = ground arith in
      let old : is_live (get_or l a none) ≡ is_live (some d) = ap is_live found in omega arith

  zombie-lowered :
      (q : ℕ)
      → is_zombie (get_or lowered q none) ≡ true
      → (is_zombie (get_or l q none) ≡ true) ⊎ ((a ≡ q) × (d.d_refcount ≤ 1))
  unfolding lowered
  zombie-lowered q z =
      let d' = some (record d { d_refcount = d.d_refcount - 1 }) in
      ground (arith, get_or-set l a q d' none (in_range l a d found), z)

  -- The reference is the last.
  last-holds : (q : ℕ) → d.d_refcount ≡ 1 → held q lowered + points_to q d.d_parent ≡ held q l
  unfolding lowered
  last-holds q one =
      let d' = record d { d_refcount = d.d_refcount - 1 } in
      let sums = held-set q l a (some d') (in_range l a d found) in
      let gone : holds q (some d') ≡ 0 = ground arith in
      let old : holds q (get_or l a none) ≡ points_to q d.d_parent =
        ap (holds q) found ∙ ground arith in
      omega arith

  last-live : d.d_refcount ≡ 1 → live lowered + 1 ≡ live l
  unfolding lowered
  last-live one =
      let d' = record d { d_refcount = d.d_refcount - 1 } in
      let sums = live-set l a (some d') (in_range l a d found) in
      let gone : is_live (some d') ≡ 0 = ground arith in
      let old : is_live (get_or l a none) ≡ 1 = ap is_live found ∙ ground arith in omega arith

-- What dentry_unref, as `next`, does with the references that it is given, on enough fuel.
abbrev Releases : ℕ → (Dcache → ℕ → Option (Dcache × Ret)) → Type 0
Releases fuel next =
    (c : Dcache) (a : ℕ) (ext : ℕ → ℕ)
    → Counted ext c.dentries
    → 0 < ext a
    → live c.dentries ≤ fuel
    → (c' : Dcache) × (next c a ≡ some (c', ok 0)) × Released (minus ext a) c.dentries c'.dentries

release_parent-Released :
    (fuel : ℕ) (next : Dcache → ℕ → Option (Dcache × Ret))
    → Releases fuel next
    → (c : Dcache) (p : Option ℕ) (ext : ℕ → ℕ) → Counted (λ q. points_to q p + ext q) c.dentries
    → live c.dentries ≤ fuel
    → (c' : Dcache) × (release_parent next c p ≡ some c') × Released ext c.dentries c'.dentries
release_parent-Released fuel next ih c none ext counted enough =
    (c, refl, (λ q. counted q ∙ omega arith, λ q. omega arith, omega arith, λ q z. z))
release_parent-Released fuel next ih c (some p) ext counted enough =
    let (c', e, (cnt, h, n, z)) =
      ih c p (λ q. points_to q (some p) + ext q) counted (ground arith) enough in
    (c', ap released e, (λ q. ground (arith, cnt q), h, n, z))

module _ (fuel : ℕ) (next : Dcache → ℕ → Option (Dcache × Ret)) (ih : Releases fuel next)
    (c : Dcache) (a : ℕ) (ext : ℕ → ℕ) (counted : Counted ext c.dentries) (owned : 0 < ext a)
    (enough : live c.dentries ≤ suc fuel) (d : Dentry)
    (found : get_or c.dentries a none ≡ some d) where
  count_of : d.d_refcount ≡ ext a + held a c.dentries
  count_of = ap refs_of (sym found) ∙ counted a

  more-Released :
      1 < d.d_refcount → Released (minus ext a) c.dentries (lowered c.dentries a d found)
  more-Released more =
      let l = c.dentries in
      (
        λ q.
            ground (
              arith,
              refs-lowered l a d found q,
              more-holds l a d found q more,
              counted q,
              count_of,
            ),
        λ q. omega (arith, more-holds l a d found q more),
        omega (arith, more-live l a d found more),
        λ q z. elim (zombie-lowered l a d found q z) [
          | inl old ↦ old
          | inr (e, le) ↦ absurd (omega arith)
        ],
      )

  last_owned : d.d_refcount ≡ 1 → (ext a ≡ 1) × (held a c.dentries ≡ 0)
  last_owned one = let n = count_of in omega arith

  last-Counted :
      (l2 : List (Option Dentry))
      → Alike (lowered c.dentries a d found) l2
      → d.d_refcount ≡ 1
      → Counted (λ q. points_to q d.d_parent + minus ext a q) l2
  last-Counted l2 (r, h, n, z) one q =
      let refs = r q ∙ refs-lowered c.dentries a d found q in
      let holds' = h q in
      let sums = last-holds c.dentries a d found q one in
      let mine = last_owned one in
      ground (arith, refs, holds', sums, counted q, last-holds c.dentries a d found a one, count_of)

  c1 : Dcache
  c1 = counted_down c a d

  c2 : Dcache
  unfolding c1
  c2 = detached c1 a d

  c2-Alike : Alike (lowered c.dentries a d found) c2.dentries
  unfolding c2 c1 lowered
  c2-Alike = detached-Alike c1 a d

  other_zombie : (q : ℕ) {b : Bool} → (not (a == q) && b) ≡ true → (a ≢ q) × (b ≡ true)
  other_zombie q {b} h = (λ e. ground arith, ground arith)

  -- The last reference is released, and with it the one to the parent.
  last-Released :
      d.d_refcount ≡ 1
      → (c' : Dcache) × (dentry_free next c1 a d ≡ some c')
        × Released (minus ext a) c.dentries c'.dentries
  unfolding dentry_free c2 c1
  last-Released one =
      let (r2, h2, n2, z2) = c2-Alike in
      let fewer : live c2.dentries ≤ fuel = omega (arith, last-live c.dentries a d found one) in
      let (c3, e, (cnt, h3, n3, z3)) =
        release_parent-Released fuel next ih c2 d.d_parent (minus ext a)
          (last-Counted c2.dentries c2-Alike one) fewer in
      let mine = last_owned one in
      let below : (q : ℕ) → held q c3.dentries ≤ held q c.dentries =
        λ q. omega (arith, h3 q, h2 q, last-holds c.dentries a d found q one) in
      let gone : refs_of (get_or c3.dentries a none) ≡ 0 = ground (arith, cnt a, below a) in
      let (r4, h4, n4, z4) = set_none-Buried c3.dentries a gone in
      (
        put c3 a none,
        ap (given_back a) e,
        (
          λ q. r4 q ∙ cnt q ∙ ap (λ n. minus ext a q + n) (sym (h4 q)),
          λ q. omega (arith, h4 q, below q),
          omega (arith, last-live c.dentries a d found one),
          λ q z.
              elim (zombie-lowered c.dentries a d found q
                (sym (z2 q) ∙ z3 q (other_zombie q (sym (z4 q) ∙ z)).1)) [
                  | inl old ↦ old
                  | inr (same, le) ↦ absurd ((other_zombie q (sym (z4 q) ∙ z)).0 same)
                ],
        ),
      )

  unref_at-Released :
      (c' : Dcache) × (unref_at next c a (some d) ≡ some (c', ok 0))
      × Released (minus ext a) c.dentries c'.dentries
  unfolding unref_at c1 lowered
  unref_at-Released = elim (Bool-cases (d.d_refcount == 1)) [
    | inl one ↦
        let e : d.d_refcount ≡ 1 = ground arith in
        let (c', freed, r) = last-Released e in (c', ground (arith, ap done freed), r)
    | inr more ↦
        let n = count_of in
        let e : 1 < d.d_refcount = ground arith in
        (counted_down c a d, ground arith, more-Released e)
  ]

unref-Releases : (fuel : ℕ) → Releases fuel (dentry_unref fuel)
unfolding dentry_unref
unref-Releases zero c a ext counted owned enough =
    let some_live : 0 < live c.dentries =
      live-pos c.dentries a (let n = counted a in omega arith) in
    absurd (omega arith)
unref-Releases (suc fuel) c a ext counted owned enough =
    elim (Option-cases (get_or c.dentries a none)) [
      | inl gone ↦ let n = sym (ap refs_of gone) ∙ counted a in absurd (omega arith)
      | inr (d, found) ↦
          let (c', e, r) =
            unref_at-Released fuel (dentry_unref fuel) (unref-Releases fuel) c a ext counted owned
              enough d found in
          (c', ap (unref_at (dentry_unref fuel) c a) found ∙ e, r)
    ]

pub dentry_unref-Released :
    (fuel : ℕ) (c : Dcache) (a : ℕ) (ext : ℕ → ℕ)
    → Counted ext c.dentries
    → 0 < ext a
    → live c.dentries ≤ fuel
    → (c' : Dcache) × (dentry_unref fuel c a ≡ some (c', ok 0))
      × Released (minus ext a) c.dentries c'.dentries
dentry_unref-Released = unref-Releases
