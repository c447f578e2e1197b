-- ===== src/Vfs/Dentry/Acquire/Stale.antt =====
-- The two releases of a dentry that is found and is not valid any more.
use oscomp.Common.{
  ℕ, ◌≤◌, ◌≡◌, refl, sym, ◌∙◌, ap, Bool, true, false, Option, none, some, List, Option-cases,
  Bool-cases, inl, inr, arith,
}
use oscomp.Vfs.Dentry.{Dentry, Dcache, dentry_at, put, dentry_unref}
use oscomp.Vfs.Dentry.Refs.{refs_of, held, live, is_zombie}
use oscomp.Vfs.Dentry.Unref.{minus, dentry_unref-Released}
use oscomp.Vfs.Dentry.Acquire.{
  FileSystem, Kind, null, dentry_acquire, dentry_lookup, hash_find, touch_found, touch_at, touched,
  is_stale, unref_again, dropped, or_new, is_directory,
}
use oscomp.Vfs.Dentry.Acquire.Counts.{plus, IsSound, raised-IsSound, same_live, same_holds}

no_zombie : (o : Option Dentry) → refs_of o ≡ 0 → is_zombie o ≡ false → o ≡ none
no_zombie none r z = refl
no_zombie (some d) r z = ground arith

module _ (fuel : ℕ) (fs : FileSystem) (c : Dcache) (p a : ℕ) (n : List ℕ) (k : Kind)
    (copy memory : Bool) (ext : ℕ → ℕ) (sound : IsSound ext c.dentries)
    (enough : live c.dentries ≤ fuel) (dir : is_directory fs c (dentry_at c p) ≡ true)
    (found : hash_find c p n ≡ some (some a)) (stale : is_stale fs a ≡ true) (one_user : ext a ≡ 1)
    (no_child : held a c.dentries ≡ 0) where
  module _ (d : Dentry) (here : dentry_at c a ≡ some d) where
    c1 : Dcache
    c1 = put c a (some (touched d))

    looked_up : dentry_lookup c p n ≡ some (c1, some a)
    unfolding dentry_lookup c1
    looked_up = ap (touch_found c) found ∙ ap (λ o. some (touch_at c a o)) here

    c1-IsSound : IsSound (plus ext a) c1.dentries
    unfolding c1
    c1-IsSound = raised-IsSound ext c.dentries sound a d (touched d) here refl refl

    c1-live : live c1.dentries ≤ fuel
    unfolding c1
    c1-live = rw (same_live ext c.dentries sound a d (touched d) here refl (omega arith)) enough

    c1-held : held a c1.dentries ≡ 0
    unfolding c1
    c1-held = same_holds ext c.dentries sound a d (touched d) here refl a (omega arith) ∙ no_child

    bad_before : {b : Bool} → is_zombie (dentry_at c1 a) ≡ true → b ≡ false
    bad_before h = let z = c1-IsSound.1 a in ground arith

    -- The first release takes back what the lookup took, the second what the holder has.
    released_twice :
        (c' : Dcache) × (unref_again fuel a (dentry_unref fuel c1 a) ≡ some (c', none))
        × (dentry_at c' a ≡ none)
    released_twice =
        let (c2, e2, (n2, h2, l2, z2)) =
          dentry_unref-Released fuel c1 a (plus ext a) c1-IsSound.0 (ground arith) c1-live in
        let (c3, e3, (n3, h3, l3, z3)) =
          dentry_unref-Released fuel c2 a (minus (plus ext a) a) n2 (ground arith)
            (omega (arith, c1-live)) in
        let bound : held a c3.dentries ≡ 0 =
          let x = h3 a in let y = h2 a in let z = c1-held in omega arith in
        let freed : refs_of (dentry_at c3 a) ≡ 0 = ground (arith, n3 a) in
        let clean : is_zombie (dentry_at c3 a) ≡ false =
          elim (Bool-cases (is_zombie (dentry_at c3 a))) [
            | inl bad ↦ bad_before (z2 a (z3 a bad))
            | inr fine ↦ fine
          ] in
        (c3, ap (unref_again fuel a) e2 ∙ ap dropped e3, no_zombie (dentry_at c3 a) freed clean)

  -- If the dentry that is found is not valid any more, is held once from outside and has no child, then
  -- dentry_acquire, which shall make no new one, gives back the memory that its holder still uses.
  pub dentry_acquire_stale :
      (c' : Dcache) × (dentry_acquire fuel fs c p n k true false copy memory ≡ some (c', null))
      × (dentry_at c' a ≡ none)
  unfolding dentry_acquire or_new
  dentry_acquire_stale = elim (Option-cases (dentry_at c a)) [
    | inl gone ↦ let r = sym (ap refs_of gone) ∙ sound.0 a in absurd (omega arith)
    | inr (d, here) ↦
        let (c', e, g) = released_twice d here in (c', rw (dir, looked_up d here, stale, e) refl, g)
  ]
