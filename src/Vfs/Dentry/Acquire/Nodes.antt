-- ===== src/Vfs/Dentry/Acquire/Nodes.antt =====
-- The nodes of the hash table of dentries: a walk along them meets no freed memory, and what is inserted
-- keeps the table.
use oscomp.Common.{
  ℕ, zero, suc, ◌≤◌, ◌<◌, ◌==◌, ◌≡◌, ◌≢◌, inl, inr, refl, sym, ◌∙◌, ap, Bool, true, Option, none,
  some, List, [], ◌∷◌, ◌++◌, length, Bool-cases, Option-cases, arith, get_or, get_or-set_self,
  get_or-set_ne, get_or_past, ==_iff, if◌then◌else◌,
}
use mathlib.Core.Path.{subst}
use mathlib.Core.Option.{some-injective}
use oscomp.Common.Bits.{set_bit, test_bit-set_bit}
use oscomp.Vfs.Inode.Lists.{count}
use oscomp.Vfs.Dentry.{Dentry, Dcache, dentry_at, put, dcache_hashed}
use oscomp.Vfs.Dentry.Refs.{in_range}
use oscomp.Vfs.Dentry.Table.{flag_of, IsTable, put-Kept}
use oscomp.Vfs.Dentry.Acquire.{hash_walk, flagged}

-- A walk along nodes that are there returns.
pub walk_there :
    (f : Dentry → Bool) (c : Dcache) (l : List ℕ)
    → ((b : ℕ) → count b l ≤ flag_of (dentry_at c b))
    → (o : Option ℕ) × (hash_walk f c l ≡ some o)
unfolding hash_walk
walk_there f c [] t = (none, refl)
walk_there f c (a ∷ l) t = elim (Option-cases (dentry_at c a)) [
  | inl gone ↦ let old = ap flag_of gone in absurd (ground (arith, t a, old))
  | inr (d, there) ↦
      let (o, e) = walk_there f c l (λ b. ground (arith, t b)) in
      elim (Bool-cases (f d)) [
        | inl hit ↦ (some a, rw (there, hit) refl)
        | inr miss ↦ (o, rw (there, miss) e)
      ]
]

-- A walk that has a node with the property before it finds one.
pub walk_hits :
    (f : Dentry → Bool) (c : Dcache) (l : List ℕ) (b : ℕ) (e : Dentry)
    → ((q : ℕ) → count q l ≤ flag_of (dentry_at c q))
    → 0 < count b l
    → dentry_at c b ≡ some e
    → f e ≡ true
    → (x : ℕ) × (hash_walk f c l ≡ some (some x))
unfolding hash_walk
walk_hits f c [] b e t inside there hits = absurd (omega arith)
walk_hits f c (a ∷ l) b e t inside there hits = elim (Option-cases (dentry_at c a)) [
  | inl gone ↦ let old = ap flag_of gone in absurd (ground (arith, t a, old))
  | inr (d, here) ↦ elim (Bool-cases (f d)) [
    | inl hit ↦ (a, rw (here, hit) refl)
    | inr miss ↦ elim (Bool-cases (b == a)) [
      | inl at ↦
          let same : dentry_at c b ≡ some d = ap (dentry_at c) ((==_iff b a).0 at) ∙ here in
          let same' : e ≡ d = some-injective e d (sym there ∙ same) in
          absurd (cc (sym miss ∙ ap f (sym same') ∙ hits))
      | inr off ↦
          let (x, found) =
            walk_hits f c l b e (λ q. ground (arith, t q)) (ground arith) there hits in
          (x, rw (here, miss) found)
    ]
  ]
]

-- A flag other than DCACHE_HASHED.
pub flagged-Kept :
    (c : Dcache) (a k : ℕ) (o : Option Dentry)
    → k ≢ dcache_hashed
    → dentry_at c a ≡ o
    → IsTable c
    → IsTable (flagged c a k o)
flagged-Kept c a k none ne e t = t
flagged-Kept c a k (some d) ne e t =
    (put-Kept c a d (record d { d_flags = set_bit d.d_flags k }) e
      (ground (arith, test_bit-set_bit d.d_flags k dcache_hashed)) refl t).0

-- A dentry that is not in the table comes into it, with its mark.
pub inserted-IsTable :
    (c : Dcache) (a : ℕ) (o : Option Dentry)
    → dentry_at c a ≡ o
    → o ≢ none
    → count a c.hashed ≡ 0
    → IsTable c
    → IsTable (flagged (record c { hashed = a ∷ c.hashed }) a dcache_hashed o)
inserted-IsTable c a none e there out t = absurd (there refl)
inserted-IsTable c a (some d) e there out t =
    let d' = record d { d_flags = set_bit d.d_flags dcache_hashed } in
    let c' = record (put c a (some d')) { hashed = a ∷ c.hashed } in
    let new : flag_of (dentry_at c' a) ≡ flag_of (some d') =
      ap flag_of (get_or-set_self c.dentries a (some d') none (in_range c.dentries a d e)) in
    let here : count a c'.hashed ≤ flag_of (dentry_at c' a) =
      ground (arith, new, out, test_bit-set_bit d.d_flags dcache_hashed dcache_hashed) in
    λ b. elim (Bool-cases (a == b)) [
      | inl at ↦ subst (λ x. count x c'.hashed ≤ flag_of (dentry_at c' x)) ((==_iff a b).0 at) here
      | inr off ↦
          rw (get_or-set_ne c.dentries a b (some d') none (λ e. ground arith)) (ground (arith, t b))
    ]

pub get_or-snoc :
    (l : List (Option Dentry)) (o : Option Dentry) (q : ℕ)
    → get_or (l ++ o ∷ []) q none ≡ (if length l == q then o else get_or l q none)
get_or-snoc [] o zero = refl
get_or-snoc [] o (suc q) = ground arith
get_or-snoc (x ∷ l) o zero = ground arith
get_or-snoc (x ∷ l) o (suc q) = ground (arith, get_or-snoc l o q)

-- A new dentry is not in the table.
pub snoc-IsTable :
    (c : Dcache) (o : Option Dentry)
    → IsTable c
    → IsTable (record c { dentries = c.dentries ++ o ∷ [] })
      × (count (length c.dentries) c.hashed ≡ 0)
snoc-IsTable c o t =
    let past : flag_of (dentry_at c (length c.dentries)) ≡ 0 =
      ap flag_of (get_or_past c.dentries (length c.dentries) none (omega arith)) in
    let out : count (length c.dentries) c.hashed ≡ 0 = omega (arith, t (length c.dentries), past) in
    (
      λ b. elim (Bool-cases (length c.dentries == b)) [
        | inl at ↦
            let none_in : count b c.hashed ≡ 0 =
              subst (λ x. count x c.hashed ≡ 0) ((==_iff (length c.dentries) b).0 at) out in
            omega (arith, none_in)
        | inr off ↦ rw (get_or-snoc c.dentries o b, off) (t b)
      ],
      out,
    )
