-- ===== src/Mm/Space/Areas.antt =====
-- Lists of areas that do not overlap, and what a search in one finds.
use oscomp.Common.{
  ℕ, zero, suc, ◌^◌, ◌==◌, ◌≤◌, ◌<◌, Bool, true, false, Option, none, some, List, [], ◌∷◌, length,
  set, ◌≡◌, ◌≢◌, refl, ap, inl, inr, ◌⊎◌, arith, Bool-cases,
}
use mathlib.Core.Option.{some-injective, none-ne-some}
use oscomp.Mm.Space.{Area, Mm, find_area, find_vma, contains}

abbrev pub All {ℓ} : {A : Type ℓ} → (A → Type 0) → List A → Type 0
All P [] = Unit
All P (x ∷ xs) = P x × All P xs

pub All-map {ℓ} :
    {A : Type ℓ} (P Q : A → Type 0) (xs : List A) → ((x : A) → P x → Q x) → All P xs → All Q xs
All-map P Q [] f h = tt
All-map P Q (x ∷ xs) f (h, hs) = (f x h, All-map P Q xs f hs)

pub All-zip {ℓ} :
    {A : Type ℓ} (P Q : A → Type 0) (xs : List A) → All P xs → All Q xs → All (λ x. P x × Q x) xs
All-zip P Q [] h g = tt
All-zip P Q (x ∷ xs) (h, hs) (g, gs) = ((h, g), All-zip P Q xs hs gs)

abbrev pub nth {ℓ} : {A : Type ℓ} → List A → ℕ → Option A
nth [] i = none
nth (x ∷ xs) zero = some x
nth (x ∷ xs) (suc i) = nth xs i

pub All-nth {ℓ} :
    {A : Type ℓ} (P : A → Type 0) (xs : List A) (i : ℕ) (x : A) → All P xs → nth xs i ≡ some x → P x
All-nth P [] i x h e = absurd (none-ne-some x e)
All-nth P (y ∷ ys) zero x (h, hs) e = rw (← some-injective _ _ e) h
All-nth P (y ∷ ys) (suc i) x (h, hs) e = All-nth P ys i x hs e

pub All-set {ℓ} :
    {A : Type ℓ} (P : A → Type 0) (xs : List A) (i : ℕ) (x : A)
    → All P xs
    → P x
    → All P (set xs i x)
All-set P [] i x h p = tt
All-set P (y ∷ ys) zero x (h, hs) p = (p, hs)
All-set P (y ∷ ys) (suc i) x (h, hs) p = (h, All-set P ys i x hs p)

abbrev pub Apart : Area → Area → Type 0
Apart a b = (a.vm_end ≤ b.vm_start) ⊎ (b.vm_end ≤ a.vm_start)

abbrev pub IsDisjoint : List Area → Type 0
IsDisjoint [] = Unit
IsDisjoint (a ∷ xs) = All (Apart a) xs × IsDisjoint xs

abbrev pub IsArea : Area → Type 0
IsArea a = (a.vm_start < a.vm_end) × (a.vm_end < 2 ^ 64)

pub record IsValid (mm : Mm) : Type 0 where
  pub areas : All IsArea mm.vma_list
  pub disjoint : IsDisjoint mm.vma_list
  pub counted : mm.map_count ≡ length mm.vma_list

-- What a search returns: the first area that passes, or that none does.
abbrev pub FoundIn : (Area → Bool) → List Area → Option (ℕ × Area) → Type 0
FoundIn p xs none = All (λ a. p a ≡ false) xs
FoundIn p xs (some (i, a)) = (nth xs i ≡ some a) × (p a ≡ true)

found_later :
    (p : Area → Bool) (b : Area) (xs : List Area) (r : Option (ℕ × Area))
    → p b ≡ false
    → FoundIn p xs r
    → FoundIn p (b ∷ xs) (elim r [ none ↦ none | some (i, a) ↦ some (suc i, a) ])
found_later p b xs none e f = (e, f)
found_later p b xs (some (i, a)) e f = f

pub find_area-FoundIn : (p : Area → Bool) (xs : List Area) → FoundIn p xs (find_area p xs)
unfolding find_area
find_area-FoundIn p [] = tt
find_area-FoundIn p (a ∷ xs) = elim (Bool-cases (p a)) [
  | inl t ↦ rw t (refl, t)
  | inr t ↦ rw t (found_later p a xs (find_area p xs) t (find_area-FoundIn p xs))
]

pub Apart-sym : (a b : Area) → Apart a b → Apart b a
Apart-sym a b (inl h) = inr h
Apart-sym a b (inr h) = inl h

-- Replacing one area by another keeps a list apart, if the new one is apart from all that satisfy `Q`
-- and were apart from the old one.
pub IsDisjoint-set :
    (Q : Area → Type 0) (xs : List Area) (i : ℕ) (a a' : Area)
    → IsDisjoint xs
    → nth xs i ≡ some a
    → All Q xs
    → ((b : Area) → Q b → Apart a b → Apart a' b)
    → IsDisjoint (set xs i a')
IsDisjoint-set Q [] i a a' d e q f = tt
IsDisjoint-set Q (b ∷ xs) zero a a' (d, ds) e (q, qs) f = (zip xs d qs, ds)
  where
    zip : (bs : List Area) → All (Apart b) bs → All Q bs → All (Apart a') bs
    zip [] d q = tt
    zip (c ∷ cs) (d, ds) (q, qs) = (f c q (rw (some-injective _ _ e) at d), zip cs ds qs)
IsDisjoint-set Q (b ∷ xs) (suc i) a a' (d, ds) e (q, qs) f = (
  All-set (Apart b) xs i a' d
      (Apart-sym a' b (f b q (Apart-sym b a (All-nth (Apart b) xs i a d e)))),
  IsDisjoint-set Q xs i a a' ds e qs f,
)

-- Two areas at different places are apart.
pub IsDisjoint-nth :
    (xs : List Area) (i j : ℕ) (a b : Area)
    → IsDisjoint xs
    → nth xs i ≡ some a
    → nth xs j ≡ some b
    → i ≢ j
    → Apart a b
IsDisjoint-nth [] i j a b d e f h = absurd (none-ne-some a e)
IsDisjoint-nth (c ∷ cs) zero zero a b d e f h = absurd (h refl)
IsDisjoint-nth (c ∷ cs) zero (suc j) a b (d, ds) e f h =
    All-nth (Apart a) cs j b (rw (some-injective _ _ e) at d) f
IsDisjoint-nth (c ∷ cs) (suc i) zero a b (d, ds) e f h =
    Apart-sym b a (All-nth (Apart b) cs i a (rw (some-injective _ _ f) at d) e)
IsDisjoint-nth (c ∷ cs) (suc i) (suc j) a b (d, ds) e f h =
    IsDisjoint-nth cs i j a b ds e f (λ g. h (ap suc g))

-- `find_vma` returns the one area that holds the address.
pub find_vma-Found : (mm : Mm) (addr : ℕ) → FoundIn (contains addr) mm.vma_list (find_vma mm addr)
unfolding find_vma
find_vma-Found mm addr = find_area-FoundIn (contains addr) mm.vma_list

-- No other area of a valid address space holds an address that one area holds.
pub contains_once :
    (mm : Mm) (addr i j : ℕ) (a b : Area)
    → IsValid mm
    → nth mm.vma_list i ≡ some a
    → nth mm.vma_list j ≡ some b
    → contains addr a ≡ true
    → contains addr b ≡ true
    → i ≡ j
contains_once mm addr i j a b v e f h g = elim (Bool-cases (i == j)) [
  | inl s ↦ ground (arith, s)
  | inr n ↦ elim (IsDisjoint-nth mm.vma_list i j a b v.disjoint e f (λ q. ground (arith, n, q))) [
    | inl l ↦ absurd (ground arith)
    | inr r ↦ absurd (ground arith)
  ]
]
