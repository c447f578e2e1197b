-- ===== src/Bitmap/Tests.antt =====
-- A bitmap of 12 bits, of which the first nine are set.
use oscomp.Common.{ℕ, ◌≡◌, refl, List, [], ◌∷◌, arith, some, none}
use oscomp.Common.Bits.{test_bit, set_bit}
use oscomp.Bitmap.{setbit, firstzero}
use oscomp.Bitmap.Laws.{LowestClear, firstzero-LowestClear}

abbrev nine : List ℕ
nine = 255 ∷ 1 ∷ []

nine_runs :
    (firstzero nine 12 ≡ some 9) × (firstzero nine 9 ≡ none) × (setbit nine 9 ≡ 255 ∷ 3 ∷ [])
unfolding firstzero setbit test_bit set_bit
nine_runs = (refl, refl, refl)

firstzero-LowestClear_example : LowestClear nine 12 (firstzero nine 12)
firstzero-LowestClear_example = firstzero-LowestClear nine 12 (omega arith)
