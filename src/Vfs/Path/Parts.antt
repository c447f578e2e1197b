-- ===== src/Vfs/Path/Parts.antt =====
-- The components of a path, as the loop of vfs_pathwalk takes them.
use oscomp.Common.{
  ℕ, ◌≤◌, ◌==◌, ◌≡◌, ◌⊎◌, inl, inr, refl, true, false, Bool-cases, List, [], ◌∷◌, length,
  if◌then◌else◌, arith,
}
use oscomp.Mm.Space.Areas.{All}
use oscomp.Vfs.Dentry.Paths.{slash}
use oscomp.Vfs.Path.{cut, is_dotdot}

abbrev pub onto_first : ℕ → List (List ℕ) → List (List ℕ)
onto_first x [] = (x ∷ []) ∷ []
onto_first x (c ∷ l) = (x ∷ c) ∷ l

-- The texts between the slashes.
unfoldable pub parts : List ℕ → List (List ℕ)
parts [] = [] ∷ []
parts (x ∷ l) = let r = parts l in if x == slash then [] ∷ r else onto_first x r

abbrev pub HasNoDotdot : List ℕ → Type 0
HasNoDotdot l = All (λ c. is_dotdot c ≡ false) (parts l)

pub cut-shorter : (x : ℕ) (l : List ℕ) → length (cut (x ∷ l)).1 ≤ length l
unfolding cut
cut-shorter x l = elim (Bool-cases (x == slash)) [
  | inl at ↦ rw at (omega arith)
  | inr other ↦ rw other (shorter l)
]
  where
    shorter : (l : List ℕ) → length (cut l).1 ≤ length l
    shorter [] = omega arith
    shorter (y ∷ l) = let ih = shorter l in ground (arith, ih)

-- What is cut off is the first of the parts, and the others are those of the rest.
pub parts-cut :
    (l : List ℕ)
    → ((cut l).1 ≡ []) × (parts l ≡ (cut l).0 ∷ []) ⊎ (parts l ≡ (cut l).0 ∷ parts (cut l).1)
unfolding cut parts
parts-cut [] = inl (refl, refl)
parts-cut (x ∷ l) = elim (Bool-cases (x == slash)) [
  | inl at ↦ rw at (inr refl)
  | inr other ↦
      rw other (elim (parts-cut l) [ inl (e, p) ↦ rw p (inl (e, refl)) | inr p ↦ rw p (inr refl) ])
]

pub cut-HasNoDotdot :
    (l : List ℕ) → HasNoDotdot l → (is_dotdot (cut l).0 ≡ false) × HasNoDotdot (cut l).1
unfolding parts
cut-HasNoDotdot l h = elim (parts-cut l) [
  | inl (e, p) ↦
      let h' : All (λ c. is_dotdot c ≡ false) ((cut l).0 ∷ []) = rw p at h in
      (h'.0, rw e (refl, tt))
  | inr p ↦ let h' : All (λ c. is_dotdot c ≡ false) ((cut l).0 ∷ parts (cut l).1) = rw p at h in h'
]

pub rest-HasNoDotdot :
    (x : ℕ) (l : List ℕ) → (x == slash) ≡ true → HasNoDotdot (x ∷ l) → HasNoDotdot l
unfolding parts
rest-HasNoDotdot x l at h =
    let h' : All (λ c. is_dotdot c ≡ false) ([] ∷ parts l) = rw at at h in h'.1
