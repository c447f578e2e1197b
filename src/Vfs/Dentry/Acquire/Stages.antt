-- ===== src/Vfs/Dentry/Acquire/Stages.antt =====
-- The stages of dentry_acquire, and the whole.
use oscomp.Common.{
  ℕ, ◌+◌, ◌≤◌, ◌<◌, ◌==◌, ◌≡◌, ◌≢◌, ltb, ==_self, inl, inr, refl, sym, ◌∙◌, ap, Bool, true, false,
  ◌&&◌, Option, none, some, List, [], ◌∷◌, ◌++◌, length, get_or, if◌then◌else◌, Bool-cases, arith,
  length-set, get_or_past,
}
use oscomp.Common.Bits.{set_bit, test_bit-set_bit}
use oscomp.Vfs.Dentry.{
  Dentry, Dcache, dentry_at, dentry_unref, dcache_hashed, dcache_negative, dcache_referenced, put,
}
use oscomp.Vfs.Dentry.Refs.{refs_of, holds, held, live}
use oscomp.Vfs.Dentry.Acquire.{
  FileSystem, Kind, Acquired, got, null, error, dentry_acquire, dentry_lookup, hash_find, touch,
  touch_at, touched, is_stale, revalidated, of_kind, matches, dropped, new_dentry, with_child,
  touch_found, has_key, in_bucket, bucket_head, max_items, revalidate_found, add_dentry,
  dentry_alloc, flagged, insert_unless, hash_new, entered, or_new, then_kind, is_directory,
}
use mathlib.Core.Path.{subst}
use mathlib.Core.Option.{none-ne-some}
use oscomp.Vfs.Inode.Lists.{count}
use oscomp.Vfs.Dentry.Table.{put-Kept}
use oscomp.Vfs.Dentry.Acquire.Nodes.{
  walk_there, flagged-Kept, inserted-IsTable, get_or-snoc, snoc-IsTable,
}
use oscomp.Vfs.Dentry.Acquire.Counts.{
  IsSafe, unref-IsSafe, plus, IsSound, raised-IsSound, level-IsSound, same_live,
}

-- A reference of the dentry that a stage has, or none.
abbrev pub Found : (ℕ → ℕ) → ℕ → Option (Dcache × Option ℕ) → Type 0
Found ext fuel none = ⊥
Found ext fuel (some (c, none)) = IsSafe ext c × (live c.dentries ≤ fuel)
Found ext fuel (some (c, some a)) = IsSafe (plus ext a) c × (live c.dentries ≤ fuel)

-- The caller has one reference more of the dentry that it is given.
abbrev pub AcquiredFrom : (ℕ → ℕ) → Option (Dcache × Acquired) → Type 0
AcquiredFrom ext none = ⊥
AcquiredFrom ext (some (c, got a)) = IsSafe (plus ext a) c
AcquiredFrom ext (some (c, null)) = IsSafe ext c
AcquiredFrom ext (some (c, error e)) = IsSafe ext c

module _ (ext : ℕ → ℕ) (fuel : ℕ) where
  pub touch-Found :
      (c : Dcache) (o : Option ℕ)
      → IsSafe ext c
      → live c.dentries ≤ fuel
      → Found ext fuel (some (touch c o))
  touch-Found c none sound enough = (sound, enough)
  touch-Found c (some a) (sound, t) enough = go (dentry_at c a) refl
    where
      go : (o : Option Dentry) → dentry_at c a ≡ o → Found ext fuel (some (touch_at c a o))
      go none e = ((sound, t), enough)
      go (some d) e = (
        (
          raised-IsSound ext c.dentries sound a d (touched d) e refl refl,
          (put-Kept c a d (touched d) e
              (ground (arith, test_bit-set_bit d.d_flags dcache_referenced dcache_hashed)) refl
              t).0,
        ),
        rw (same_live ext c.dentries sound a d (touched d) e refl (omega arith)) enough,
      )

  dropped-Found :
      (c : Dcache) (a : ℕ)
      → IsSafe (plus ext a) c
      → live c.dentries ≤ fuel
      → Found ext fuel (dropped (dentry_unref fuel c a))
  dropped-Found c a sound enough =
      let (c', e, s, n, k) = unref-IsSafe fuel c a ext sound enough in rw e (s, n)

  of_kind-Found :
      (fs : FileSystem) (k : Kind) (c : Dcache) (o : Option ℕ)
      → Found ext fuel (some (c, o))
      → Found ext fuel (of_kind fuel fs k c o)
  of_kind-Found fs k c none f = f
  of_kind-Found fs k c (some a) (sound, enough) =
      elim (Bool-cases (matches fs c k (dentry_at c a))) [
        | inl fits ↦ rw fits (sound, enough)
        | inr other ↦ rw other (dropped-Found c a sound enough)
      ]

  revalidated-same :
      (fs : FileSystem) (revalidate : Bool) (c : Dcache) (o : Option ℕ)
      → ((a : ℕ) → (revalidate && is_stale fs a) ≡ false)
      → revalidated fuel fs revalidate c o ≡ some (c, o)
  revalidated-same fs revalidate c none fresh = refl
  revalidated-same fs revalidate c (some a) fresh = rw (fresh a) refl

held-snoc :
    (p : ℕ) (l : List (Option Dentry)) (o : Option Dentry)
    → held p (l ++ o ∷ []) ≡ held p l + holds p o
held-snoc p [] o = omega arith
held-snoc p (x ∷ l) o = let ih = held-snoc p l o in omega arith

-- A new dentry, of which the caller has the reference and whose parent has one more.
snoc-IsSound :
    (ext : ℕ → ℕ) (p : ℕ) (n : Option (List ℕ)) (l : List (Option Dentry))
    → IsSound (plus ext p) l
    → IsSound (plus ext (length l)) (l ++ some (new_dentry p n) ∷ [])
snoc-IsSound ext p n l (counted, clean) =
    let past : refs_of (get_or l (length l) none) ≡ 0 =
      ap refs_of (get_or_past l (length l) none (omega arith)) in
    let unused : plus ext p (length l) + held (length l) l ≡ 0 = sym (counted (length l)) ∙ past in
    (
      λ q. ground (
        arith,
        get_or-snoc l (some (new_dentry p n)) q,
        held-snoc q l (some (new_dentry p n)),
        counted q,
        unused,
      ),
      λ q. ground (arith, get_or-snoc l (some (new_dentry p n)) q, clean q),
    )

pub flagged-IsSound :
    (ext : ℕ → ℕ) (c : Dcache) (a k : ℕ) (o : Option Dentry)
    → dentry_at c a ≡ o
    → IsSound ext c.dentries
    → IsSound ext (flagged c a k o).dentries
flagged-IsSound ext c a k none e sound = sound
flagged-IsSound ext c a k (some d) e sound =
    level-IsSound ext c.dentries sound a d (record d { d_flags = set_bit d.d_flags k }) e refl refl

insert_unless-IsSafe :
    (ext : ℕ → ℕ) (c : Dcache) (a : ℕ) (o : Option ℕ)
    → IsSafe ext c
    → dentry_at c a ≢ none
    → count a c.hashed ≡ 0
    → IsSafe ext (insert_unless c a o)
insert_unless-IsSafe ext c a none (sound, t) there out = (
  flagged-IsSound ext (record c { hashed = a ∷ c.hashed }) a dcache_hashed (dentry_at c a) refl
      sound,
  inserted-IsTable c a (dentry_at c a) refl there out t,
)
insert_unless-IsSafe ext c a (some b) safe there out = safe

-- Hashing a dentry that is not in the table.
hash_new-IsSafe :
    (ext : ℕ → ℕ) (c : Dcache) (p a : ℕ) (n : List ℕ)
    → IsSafe ext c
    → dentry_at c a ≢ none
    → count a c.hashed ≡ 0
    → (c' : Dcache) × (hash_new c p a n ≡ some c') × IsSafe ext c'
unfolding hash_new bucket_head
hash_new-IsSafe ext c p a n safe there out = elim (Bool-cases (ltb (length c.hashed) max_items)) [
  | inr full ↦ (c, rw full refl, safe)
  | inl room ↦
      let (o, walked) = walk_there (in_bucket c (c.bucket p n)) c c.hashed safe.1 in
      (insert_unless c a o, rw (room, walked) refl, insert_unless-IsSafe ext c a o safe there out)
]

module _ (ext : ℕ → ℕ) (p : ℕ) (n : List ℕ) (held_parent : 0 < ext p) (c : Dcache)
    (safe : IsSafe ext c) where
  add_dentry-AcquiredFrom :
      (o : Option Dentry)
      → dentry_at c p ≡ o
      → AcquiredFrom ext (entered p (some n) (add_dentry c p (some n) o))
  unfolding entered
  add_dentry-AcquiredFrom none e =
      let refs = sym (ap refs_of e) ∙ safe.0.0 p in absurd (omega arith)
  add_dentry-AcquiredFrom (some d) e =
      let a = length c.dentries in
      let c1 = put c p (some (with_child a d)) in
      let l1 = c1.dentries in
      let o = some (new_dentry p (some n)) in
      let c2 = record c1 { dentries = l1 ++ o ∷ [] } in
      let raised : IsSound (plus ext p) l1 =
        raised-IsSound ext c.dentries safe.0 p d (with_child a d) e refl refl in
      let table = (put-Kept c p d (with_child a d) e refl refl safe.1).0 in
      let same : length l1 ≡ a = length-set c.dentries p (some (with_child a d)) in
      let added : IsSound (plus ext (length l1)) c2.dentries =
        snoc-IsSound ext p (some n) l1 raised in
      let now : IsSound (plus ext a) c2.dentries = rw same at added in
      let (kept, out) = snoc-IsTable c1 o table in
      let free : count a c2.hashed ≡ 0 = rw same at out in
      let here : dentry_at c2 a ≡ o =
        get_or-snoc l1 o a
        ∙ ap (λ x. if x == a then o else get_or l1 a none) same
        ∙ rw (==_self a) refl in
      let (c3, hashed, s3) =
        hash_new-IsSafe (plus ext a) c2 p a n (now, kept)
          (λ gone. none-ne-some (new_dentry p (some n)) (sym gone ∙ here)) free in
      rw hashed (
        flagged-IsSound (plus ext a) c3 a dcache_negative (dentry_at c3 a) refl s3.0,
        flagged-Kept c3 a dcache_negative (dentry_at c3 a) (omega arith) refl s3.1,
      )

  new-AcquiredFrom :
      (memory : Bool) → AcquiredFrom ext (entered p (some n) (dentry_alloc c p (some n) memory))
  unfolding dentry_alloc entered
  new-AcquiredFrom false = safe
  new-AcquiredFrom true = add_dentry-AcquiredFrom (dentry_at c p) refl

  or_new-AcquiredFrom :
      (alloc memory : Bool) → AcquiredFrom ext (or_new p (some n) alloc memory (some (c, none)))
  unfolding or_new
  or_new-AcquiredFrom false memory = safe
  or_new-AcquiredFrom true memory = new-AcquiredFrom memory

module _ (fuel : ℕ) (fs : FileSystem) (c : Dcache) (p : ℕ) (n : List ℕ) (k : Kind)
    (revalidate alloc memory : Bool) (ext : ℕ → ℕ) (safe : IsSafe ext c) (held_parent : 0 < ext p)
    (enough : live c.dentries ≤ fuel)
    (fresh : (a : ℕ) → (revalidate && is_stale fs a) ≡ false) where
  last_stage :
      (r : Option (Dcache × Option ℕ))
      → Found ext fuel r
      → AcquiredFrom ext (or_new p (some n) alloc memory r)
  unfolding or_new
  last_stage none f = elim f [ ]
  last_stage (some (c', some a)) f = f.0
  last_stage (some (c', none)) f = or_new-AcquiredFrom ext p n held_parent c' f.0 alloc memory

  looked_up : (o : Option ℕ) × (dentry_lookup c p n ≡ some (touch c o))
  unfolding dentry_lookup hash_find
  looked_up =
      let (o, walked) = walk_there (has_key p n) c c.hashed safe.1 in (o, ap (touch_found c) walked)

  stages :
      (c1 : Dcache) (o : Option ℕ)
      → Found ext fuel (some (c1, o))
      → AcquiredFrom ext (
          or_new p
            (some n)
            alloc
            memory
            (then_kind fuel fs k (revalidated fuel fs revalidate c1 o)))
  stages c1 o f =
      rw (revalidated-same ext fuel fs revalidate c1 o fresh)
        (last_stage (of_kind fuel fs k c1 o) (of_kind-Found ext fuel fs k c1 o f))

  found_stages : AcquiredFrom ext (
      or_new p
        (some n)
        alloc
        memory
        (then_kind fuel fs k (revalidate_found fuel fs revalidate (dentry_lookup c p n))))
  found_stages =
      let (o, e) = looked_up in
      subst
        (λ r. AcquiredFrom ext (
          or_new p (some n) alloc memory
            (then_kind fuel fs k (revalidate_found fuel fs revalidate r))))
        (sym e) (stages (touch c o).0 (touch c o).1 (touch-Found ext fuel c o safe enough))

  pub dentry_acquire-AcquiredFrom :
      AcquiredFrom ext (dentry_acquire fuel fs c p n k revalidate alloc true memory)
  unfolding dentry_acquire
  dentry_acquire-AcquiredFrom = elim (Bool-cases (is_directory fs c (dentry_at c p))) [
    | inl dir ↦ rw dir found_stages
    | inr other ↦ rw other safe
  ]
