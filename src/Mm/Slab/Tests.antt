-- ===== src/Mm/Slab/Tests.antt =====
-- A slab of 16-byte objects.
use oscomp.Common.{ℕ, ◌≡◌, refl, ◌≤◌, ◌<◌, [], ◌∷◌, some, arith, false}
use oscomp.Common.Bits.{test_bit}
use oscomp.Bitmap.{is_set}
use oscomp.Mm.Slab.{Slab, take_object}
use oscomp.Mm.Slab.Object.{take_object_wipes}

-- All objects but the first are in use.
abbrev crowded : Slab
crowded = record {
  free_count = 1;
  total_count = 64;
  obj_size = 16;
  bitmap = 254 ∷ 255 ∷ 255 ∷ 255 ∷ 255 ∷ 255 ∷ 255 ∷ 255 ∷ [];
}

take_object_wipes_example :
    (s' : Slab) × (take_object crowded ≡ some (s', 0))
    × ((i : ℕ) → 32 ≤ i → i < 160 → is_set s'.bitmap i ≡ false)
unfolding is_set test_bit
take_object_wipes_example = take_object_wipes crowded refl (omega arith) (omega arith) refl
