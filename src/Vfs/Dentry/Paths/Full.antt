-- ===== src/Vfs/Dentry/Paths/Full.antt =====
-- dentry_allocFullPath gives the names on the way from the root, each behind a slash.
use oscomp.Common.{
  ℕ, zero, suc, ◌+◌, ◌≤◌, ◌<◌, ◌≡◌, refl, sym, ap, ◌∙◌, true, none, some, List, [], ◌∷◌, ◌++◌,
  length, length-append, arith,
}
use oscomp.Vfs.Dentry.{Dentry, Dcache, dentry_at}
use oscomp.Vfs.Dentry.Paths.{
  slash, longer, measured_at, measured, path_len, with_root, prepended, built_at, built, fill_path,
  dentry_alloc_full_path,
}
use mathlib.Core.List.{append_assoc, append-nil}

-- The names on the way to the root, that of the dentry first.
pub data Ancestry (c : Dcache) : ℕ → List (List ℕ) → Type 0 where
  at_root : (a : ℕ) (d : Dentry) → dentry_at c a ≡ some d → d.d_parent ≡ none → Ancestry c a []
  below :
      (a p : ℕ) (d : Dentry) (n : List ℕ) (ns : List (List ℕ))
      → dentry_at c a ≡ some d
      → d.d_parent ≡ some p
      → d.d_name ≡ some n
      → Ancestry c p ns
      → Ancestry c a (n ∷ ns)

abbrev pub absolute : List (List ℕ) → List ℕ
absolute [] = []
absolute (n ∷ ns) = absolute ns ++ slash ∷ n

abbrev pub full_path : List (List ℕ) → List ℕ
full_path [] = slash ∷ []
full_path (n ∷ ns) = absolute (n ∷ ns)

size_of : List (List ℕ) → ℕ
size_of [] = 1
size_of (n ∷ ns) = length n + 1 + size_of ns

path_len-Ancestry :
    (fuel : ℕ) (c : Dcache) (a : ℕ) (ns : List (List ℕ))
    → Ancestry c a ns
    → length ns < fuel
    → path_len fuel c a ≡ some (size_of ns)
unfolding path_len size_of
path_len-Ancestry zero c a ns h lt = absurd (omega arith)
path_len-Ancestry (suc fuel) c a [] (at_root _ d e r) lt =
    let next = λ (q : ℕ). path_len fuel c q in
    ap (measured next) e ∙ ap (measured_at next d.d_name) r
path_len-Ancestry (suc fuel) c a (n ∷ ns) (below _ p d _ _ e r m h) lt =
    let next = λ (q : ℕ). path_len fuel c q in
    ap (measured next) e
    ∙ ap (measured_at next d.d_name) r
    ∙ ap (λ x. longer x (next p)) m
    ∙ ap (longer (some n)) (path_len-Ancestry fuel c p ns h (omega arith))

fill_path-Ancestry :
    (fuel : ℕ) (c : Dcache) (a : ℕ) (ns : List (List ℕ)) (text : List ℕ)
    → Ancestry c a ns
    → length ns < fuel
    → fill_path fuel c a text ≡ some (with_root (absolute ns ++ text))
unfolding fill_path
fill_path-Ancestry zero c a ns text h lt = absurd (omega arith)
fill_path-Ancestry (suc fuel) c a [] text (at_root _ d e r) lt =
    let next = λ (q : ℕ) (t : List ℕ). fill_path fuel c q t in
    ap (λ o. built next o text) e ∙ ap (built_at next d.d_name text) r
fill_path-Ancestry (suc fuel) c a (n ∷ ns) text (below _ p d _ _ e r m h) lt =
    let next = λ (q : ℕ) (t : List ℕ). fill_path fuel c q t in
    ap (λ o. built next o text) e
    ∙ ap (built_at next d.d_name text) r
    ∙ ap (λ x. prepended (next p) x text) m
    ∙ fill_path-Ancestry fuel c p ns (slash ∷ (n ++ text)) h (omega arith)
    ∙ ap (λ t. some (with_root t)) (sym (append_assoc (absolute ns) (slash ∷ n) text))

length-absolute : (ns : List (List ℕ)) → length (absolute ns) + 1 ≡ size_of ns
unfolding size_of
length-absolute [] = omega arith
length-absolute (n ∷ ns) =
    let ih = length-absolute ns in let sums = length-append (absolute ns) (slash ∷ n) in omega arith

headed : (n : List ℕ) (ns : List (List ℕ)) → (rest : List ℕ) × (absolute (n ∷ ns) ≡ slash ∷ rest)
headed n [] = (n, refl)
headed n (m ∷ ns) = let (rest, e) = headed m ns in (rest ++ slash ∷ n, ap (λ t. t ++ slash ∷ n) e)

-- Behind the first name a path begins with a slash already.
with_root-absolute :
    (n : List ℕ) (ns : List (List ℕ)) → with_root (absolute (n ∷ ns)) ≡ absolute (n ∷ ns)
with_root-absolute n ns = let (rest, e) = headed n ns in ap with_root e ∙ sym e

length-full_path : (ns : List (List ℕ)) → length (full_path ns) ≤ size_of ns
unfolding size_of
length-full_path [] = omega arith
length-full_path (n ∷ ns) = let total = length-absolute (n ∷ ns) in omega arith

root_of : (ns : List (List ℕ)) → with_root (absolute ns ++ []) ≡ full_path ns
root_of [] = refl
root_of (n ∷ ns) = ap with_root (append-nil (absolute (n ∷ ns))) ∙ with_root-absolute n ns

-- For a dentry whose way to the root passes the names `ns`, on more fuel than names,
-- dentry_allocFullPath writes nothing out of its buffer and returns the names from the root on, each
-- behind a slash, or one slash for the root.
pub dentry_alloc_full_path-full_path :
    (fuel : ℕ) (c : Dcache) (a : ℕ) (ns : List (List ℕ))
    → Ancestry c a ns
    → length ns < fuel
    → dentry_alloc_full_path fuel c a true ≡ some (some (full_path ns))
unfolding dentry_alloc_full_path
dentry_alloc_full_path-full_path fuel c a ns h lt =
    rw (path_len-Ancestry fuel c a ns h lt, fill_path-Ancestry fuel c a ns [] h lt, root_of ns)
      (ground (arith, length-full_path ns))
