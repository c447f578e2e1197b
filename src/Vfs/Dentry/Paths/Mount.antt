-- ===== src/Vfs/Dentry/Paths/Mount.antt =====
-- dentry_allocPath2Mount leaves out the name of the parent.
use oscomp.Common.{
  ℕ, zero, suc, ◌+◌, ◌-◌, ◌≤◌, ◌<◌, ◌≡◌, ◌≢◌, ◌⊎◌, inl, inr, refl, ap, sym, ◌∙◌, ◌++◌, Bool, true,
  false, Option, none, some, List, [], ◌∷◌, length, arith,
}
use oscomp.Common.Bits.{test_bit}
use oscomp.Vfs.Dentry.{Dentry, Dcache, dentry_at, dcache_mounted}
use oscomp.Vfs.Dentry.Paths.{
  slash, pushed, climbed, collected_at, collected, path_stack, joined, mount_text, path_to_mount,
  dentry_alloc_path_to_mount,
}

-- The names from a dentry up to its mount point, that of the dentry first, where `parent` is not met.
pub data Upto (c : Dcache) (parent : ℕ) : ℕ → List (List ℕ) → Type 0 where
  at_mount :
      (a : ℕ) (d : Dentry)
      → dentry_at c a ≡ some d
      → (test_bit d.d_flags dcache_mounted ≡ true) ⊎ (d.d_parent ≡ none)
      → Upto c parent a []
  above :
      (a q : ℕ) (d : Dentry) (n : List ℕ) (ns : List (List ℕ))
      → dentry_at c a ≡ some d
      → test_bit d.d_flags dcache_mounted ≡ false
      → d.d_parent ≡ some q
      → d.d_name ≡ some n
      → parent ≢ a
      → Upto c parent q ns
      → Upto c parent a (n ∷ ns)

-- The names put on a stack, the first one first.
abbrev pub piled : List (List ℕ) → List (List ℕ) → List (List ℕ)
piled [] stack = stack
piled (n ∷ ns) stack = piled ns (n ∷ stack)

-- Each name behind a slash.
abbrev pub slashed : List (List ℕ) → List ℕ
slashed [] = []
slashed (n ∷ ns) = slash ∷ n ++ slashed ns

append_nil : (l : List ℕ) → l ++ [] ≡ l
append_nil [] = refl
append_nil (x ∷ l) = ap (λ m. x ∷ m) (append_nil l)

joined-slashed : (n : List ℕ) (ns : List (List ℕ)) → slash ∷ joined (n ∷ ns) ≡ slashed (n ∷ ns)
unfolding joined
joined-slashed n [] = ap (λ l. slash ∷ l) (sym (append_nil n))
joined-slashed n (m ∷ ns) = ap (λ l. slash ∷ n ++ l) (joined-slashed m ns)

-- A pile on one name is not empty.
piled-slashed :
    (ns : List (List ℕ)) (n : List ℕ) (stack : List (List ℕ))
    → slash ∷ joined (piled ns (n ∷ stack)) ≡ slashed (piled ns (n ∷ stack))
piled-slashed [] n stack = joined-slashed n stack
piled-slashed (m ∷ ns) n stack = piled-slashed ns m (n ∷ stack)

pushed_other :
    (p a : ℕ) (n : List ℕ) (stack : List (List ℕ))
    → length stack < 128
    → p ≢ a
    → pushed (some p) a (some n) stack ≡ some (n ∷ stack)
pushed_other p a n stack lt ne = ground arith

pushed_parent :
    (p : ℕ) (n : Option (List ℕ)) (stack : List (List ℕ)) → pushed (some p) p n stack ≡ some stack
pushed_parent p n stack = ground arith

collected_end :
    (next : ℕ → List (List ℕ) → Option (List (List ℕ))) (more : Option (List (List ℕ)))
    (stack : List (List ℕ)) (b : Bool) (q : Option ℕ)
    → (b ≡ true) ⊎ (q ≡ none)
    → collected_at next more stack b q ≡ some stack
collected_end next more stack true q h = refl
collected_end next more stack false none h = refl
collected_end next more stack false (some q) (inl h) = cc
collected_end next more stack false (some q) (inr h) = cc

module _ (c : Dcache) (parent : ℕ) where
  path_stack-Upto :
      (fuel : ℕ) (a : ℕ) (ns stack : List (List ℕ))
      → Upto c parent a ns
      → length ns < fuel
      → length stack + length ns ≤ 128
      → path_stack fuel c (some parent) a stack ≡ some (piled ns stack)
  unfolding path_stack
  path_stack-Upto zero a ns stack h lt fits = absurd (omega arith)
  path_stack-Upto (suc fuel) a [] stack (at_mount _ d e stop) lt fits =
      let next = λ (q : ℕ) (s : List (List ℕ)). path_stack fuel c (some parent) q s in
      ap (λ o. collected next (some parent) a o stack) e
      ∙ collected_end next (pushed (some parent) a d.d_name stack) stack
          (test_bit d.d_flags dcache_mounted) d.d_parent stop
  path_stack-Upto (suc fuel) a (n ∷ ns) stack (above _ q d _ _ e unmounted r m ne h) lt fits =
      let next = λ (x : ℕ) (s : List (List ℕ)). path_stack fuel c (some parent) x s in
      let more = pushed (some parent) a d.d_name stack in
      ap (λ o. collected next (some parent) a o stack) e
      ∙ ap (λ b. collected_at next more stack b d.d_parent) unmounted
      ∙ ap (collected_at next more stack false) r
      ∙ ap (λ x. climbed (next q) (pushed (some parent) a x stack)) m
      ∙ ap (climbed (next q)) (pushed_other parent a n stack (omega arith) ne)
      ∙ path_stack-Upto fuel q ns (n ∷ stack) h (omega arith) (omega arith)

module _ (c : Dcache) (a p g : ℕ) (d e : Dentry) (n : List ℕ) (ns : List (List ℕ)) (fuel : ℕ)
    (here : dentry_at c a ≡ some d) (unmounted : test_bit d.d_flags dcache_mounted ≡ false)
    (has_parent : d.d_parent ≡ some p) (has_name : d.d_name ≡ some n) (apart : p ≢ a)
    (parent_here : dentry_at c p ≡ some e)
    (parent_unmounted : test_bit e.d_flags dcache_mounted ≡ false)
    (has_grandparent : e.d_parent ≡ some g) (above_parent : Upto c p g ns)
    (enough : length ns + 2 < fuel) (fits : length ns < 128) where
  parent_skipped :
      (k : ℕ) → length ns < k → path_stack (suc k) c (some p) p (n ∷ []) ≡ some (piled ns (n ∷ []))
  unfolding path_stack
  parent_skipped k lt =
      let next = λ (x : ℕ) (s : List (List ℕ)). path_stack k c (some p) x s in
      let more = pushed (some p) p e.d_name (n ∷ []) in
      ap (λ o. collected next (some p) p o (n ∷ [])) parent_here
      ∙ ap (λ b. collected_at next more (n ∷ []) b e.d_parent) parent_unmounted
      ∙ ap (collected_at next more (n ∷ []) false) has_grandparent
      ∙ ap (climbed (next g)) (pushed_parent p e.d_name (n ∷ []))
      ∙ path_stack-Upto c p k g ns (n ∷ []) above_parent lt (omega arith)

  whole_stack :
      (k : ℕ) → length ns < k → path_stack (suc (suc k)) c (some p) a [] ≡ some (piled ns (n ∷ []))
  unfolding path_stack
  whole_stack k lt =
      let next = λ (x : ℕ) (s : List (List ℕ)). path_stack (suc k) c (some p) x s in
      let more = pushed (some p) a d.d_name [] in
      ap (λ o. collected next (some p) a o []) here
      ∙ ap (λ b. collected_at next more [] b d.d_parent) unmounted
      ∙ ap (collected_at next more [] false) has_parent
      ∙ ap (λ x. climbed (next p) (pushed (some p) a x [])) has_name
      ∙ ap (climbed (next p)) (pushed_other p a n [] (omega arith) apart)
      ∙ parent_skipped k lt

  -- For a dentry two levels or more under its mount point, where neither it nor its parent is one, with
  -- fewer than 128 names above the parent, on more fuel than levels and with memory for the text,
  -- dentry_allocPath2Mount returns the names from the mount point down to the grandparent and then that
  -- of the dentry, each behind a slash: the name of the parent is left out.
  pub dentry_alloc_path_to_mount_skips :
      dentry_alloc_path_to_mount fuel c a true ≡ some (some (slashed (piled ns (n ∷ []))))
  unfolding dentry_alloc_path_to_mount path_to_mount
  dentry_alloc_path_to_mount_skips =
      let k = fuel - 2 in
      let deep : fuel ≡ suc (suc k) = omega arith in
      ap (path_to_mount fuel c a true) here
      ∙ ap (λ x. mount_text true (path_stack fuel c x a [])) has_parent
      ∙ ap (λ f. mount_text true (path_stack f c (some p) a [])) deep
      ∙ ap (mount_text true) (whole_stack k (omega arith))
      ∙ ap (λ l. some (some l)) (piled-slashed ns n [])
