-- ===== src/Mm/Space/Unmap/Loop.antt =====
-- What the loop at the end of `do_unmap` removes and keeps.
use oscomp.Common.{
  ℕ, zero, suc, ◌+◌, ◌<◌, leb, false, some, List, [], ◌∷◌, length, ◌≡◌, refl, arith, Bool-cases,
  inl, inr,
}
use mathlib.Core.Option.{some-injective}
use oscomp.Mm.Space.{Area, meets}
use oscomp.Mm.Space.Areas.{All, nth, Apart, IsDisjoint}
use oscomp.Mm.Space.Unmap.{remove_areas, removed}

-- What the loop keeps, of any list.
pub remove_areas-All :
    (P : Area → Type 0) (xs : List Area) (start stop : ℕ)
    → All P xs
    → All P (remove_areas xs start stop).0
unfolding remove_areas
remove_areas-All P [] start stop h = tt
remove_areas-All P (a ∷ xs) start stop (h, hs) =
    let ih = remove_areas-All P xs start stop hs in
    elim (Bool-cases (leb stop a.vm_start)) [
      | inl t ↦ rw t (h, hs)
      | inr t ↦ elim (Bool-cases (leb a.vm_end start)) [
        | inl u ↦ rw (t, u) (h, ih)
        | inr u ↦ rw (t, u) ih
      ]
    ]

pub remove_areas-IsDisjoint :
    (xs : List Area) (start stop : ℕ) → IsDisjoint xs → IsDisjoint (remove_areas xs start stop).0
unfolding remove_areas
remove_areas-IsDisjoint [] start stop d = tt
remove_areas-IsDisjoint (a ∷ xs) start stop (d, ds) =
    let ih = remove_areas-IsDisjoint xs start stop ds in
    elim (Bool-cases (leb stop a.vm_start)) [
      | inl t ↦ rw t (d, ds)
      | inr t ↦ elim (Bool-cases (leb a.vm_end start)) [
        | inl u ↦ rw (t, u) (remove_areas-All (Apart a) xs start stop d, ih)
        | inr u ↦ rw (t, u) ih
      ]
    ]

pub length-remove_areas :
    (xs : List Area) (start stop : ℕ)
    → length (remove_areas xs start stop).0 + removed xs start stop ≡ length xs
unfolding remove_areas removed
length-remove_areas [] start stop = refl
length-remove_areas (a ∷ xs) start stop =
    let ih = length-remove_areas xs start stop in
    elim (Bool-cases (leb stop a.vm_start)) [
      | inl t ↦ rw t (omega arith)
      | inr t ↦ elim (Bool-cases (leb a.vm_end start)) [
        | inl u ↦ rw (t, u) (omega (arith, ih))
        | inr u ↦ rw (t, u) (omega (arith, ih))
      ]
    ]

-- An area that does not meet the range stays.
pub remove_areas-kept :
    (xs : List Area) (start stop i : ℕ) (b : Area)
    → nth xs i ≡ some b
    → meets start stop b ≡ false
    → (j : ℕ) × (nth (remove_areas xs start stop).0 j ≡ some b)
unfolding remove_areas
remove_areas-kept [] start stop i b e h = (0, e)
remove_areas-kept (a ∷ xs) start stop zero b e h = elim (Bool-cases (leb stop a.vm_start)) [
  | inl t ↦ rw t (0, e)
  | inr t ↦ elim (Bool-cases (leb a.vm_end start)) [
    | inl u ↦ rw (t, u) (0, e)
    | inr u ↦
        let same : a ≡ b = some-injective _ _ e in
        let no : meets start stop a ≡ false = rw same h in absurd (ground (arith, no, t, u))
  ]
]
remove_areas-kept (a ∷ xs) start stop (suc i) b e h =
    let (j, k) = remove_areas-kept xs start stop i b e h in
    elim (Bool-cases (leb stop a.vm_start)) [
      | inl t ↦ rw t (suc i, e)
      | inr t ↦ elim (Bool-cases (leb a.vm_end start)) [
        | inl u ↦ rw (t, u) (suc j, k)
        | inr u ↦ rw (t, u) (j, k)
      ]
    ]

-- Where every area starts below the end of the range, none that stays meets it.
pub remove_areas-cleared :
    (xs : List Area) (start stop : ℕ)
    → All (λ a. a.vm_start < stop) xs
    → All (λ a. meets start stop a ≡ false) (remove_areas xs start stop).0
unfolding remove_areas
remove_areas-cleared [] start stop h = tt
remove_areas-cleared (a ∷ xs) start stop (h, hs) =
    let ih = remove_areas-cleared xs start stop hs in
    let below : leb stop a.vm_start ≡ false = ground arith in
    elim (Bool-cases (leb a.vm_end start)) [
      | inl u ↦ rw (below, u) (ground arith, ih)
      | inr u ↦ rw (below, u) ih
    ]
