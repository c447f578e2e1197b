-- ===== src/Mm/Slab/Object.antt =====
-- Taking an object out of a slab and giving it back.
use oscomp.Common.{
  ℕ, zero, suc, ◌+◌, ◌*◌, ◌/◌, ◌%◌, ◌^◌, ◌≤◌, ◌<◌, ◌==◌, leb, true, false, Option, none, some, List,
  [], ◌∷◌, length, get_or, if◌then◌else◌, ◌≡◌, refl, ◌∙◌, arith, inl, inr, ◌⊎◌,
}
use oscomp.Common.Bits.{test_bit-zero}
use oscomp.Bitmap.{setbit, clearbit, is_set, firstzero}
use oscomp.Bitmap.Laws.{
  length-setbit, length-clearbit, is_set-setbit, is_set-clearbit, LowestClear,
  firstzero-LowestClear, testbit-is_set,
}
use oscomp.Mm.Slab.{Slab, zero_bytes, mark_object, take_at, take_object, give_object}
use oscomp.Mm.Slab.Count.{clear_count, clear_count-le, clear_count_full, clear_count_set}

-- The bitmap has a bit for each object, and `free_count` counts the clear ones.
pub record IsValid (s : Slab) : Type 0 where
  pub room : s.total_count ≤ length s.bitmap * 8
  pub bound : s.total_count < 2 ^ 32
  pub counted : s.free_count ≡ clear_count s.bitmap s.total_count

length-zero_bytes : (m : List ℕ) (lo n : ℕ) → length (zero_bytes m lo n) ≡ length m
length-zero_bytes [] lo n = refl
length-zero_bytes (b ∷ bs) zero zero = refl
length-zero_bytes (b ∷ bs) zero (suc n) = omega (arith, length-zero_bytes bs zero n)
length-zero_bytes (b ∷ bs) (suc lo) n = omega (arith, length-zero_bytes bs lo n)

get_or-zero_bytes_below :
    (m : List ℕ) (lo n i : ℕ) → i < lo → get_or (zero_bytes m lo n) i 0 ≡ get_or m i 0
get_or-zero_bytes_below [] lo n i h = refl
get_or-zero_bytes_below (b ∷ bs) zero n i h = absurd (omega arith)
get_or-zero_bytes_below (b ∷ bs) (suc lo) n zero h = refl
get_or-zero_bytes_below (b ∷ bs) (suc lo) n (suc i) h =
    get_or-zero_bytes_below bs lo n i (omega arith)

get_or-zero_bytes_in :
    (m : List ℕ) (lo n i : ℕ) → lo ≤ i → i < lo + n → get_or (zero_bytes m lo n) i 0 ≡ 0
get_or-zero_bytes_in [] lo n i h g = refl
get_or-zero_bytes_in (b ∷ bs) zero zero i h g = absurd (omega arith)
get_or-zero_bytes_in (b ∷ bs) zero (suc n) zero h g = refl
get_or-zero_bytes_in (b ∷ bs) zero (suc n) (suc i) h g =
    get_or-zero_bytes_in bs zero n i (omega arith) (omega arith)
get_or-zero_bytes_in (b ∷ bs) (suc lo) n zero h g = absurd (omega arith)
get_or-zero_bytes_in (b ∷ bs) (suc lo) n (suc i) h g =
    get_or-zero_bytes_in bs lo n i (omega arith) (omega arith)

-- The first 32 bits survive that an object is cleared.
is_set-mark_object :
    (s : Slab) (k i : ℕ)
    → k < length s.bitmap * 8
    → i < 32
    → is_set (mark_object s k).bitmap i ≡ (if k == i then true else is_set s.bitmap i)
unfolding mark_object is_set
is_set-mark_object s k i h g =
    rw
      (get_or-zero_bytes_below (setbit s.bitmap k) (4 + k * s.obj_size) s.obj_size (i / 8)
        (omega arith))
      (is_set-setbit s.bitmap k i h)

-- The slab after object `k` was taken.
pub record Taken (s s' : Slab) (k : ℕ) : Type 0 where
  pub was_free : (k < s.total_count) × (is_set s.bitmap k ≡ false)
  pub lowest : (i : ℕ) → i < k → is_set s.bitmap i ≡ true
  pub bits :
      (i : ℕ)
      → i < s.total_count
      → is_set s'.bitmap i ≡ (if k == i then true else is_set s.bitmap i)
  pub count : s'.free_count + 1 ≡ s.free_count
  pub valid : IsValid s'
  pub same : (s'.total_count ≡ s.total_count) × (s'.obj_size ≡ s.obj_size)

marked-Taken :
    (s : Slab) (k : ℕ)
    → IsValid s
    → s.total_count ≤ 32
    → LowestClear s.bitmap s.total_count (some k)
    → Taken s (mark_object s k) k
unfolding mark_object
marked-Taken s k v small (below, clear, lowest) =
    let bits : (i : ℕ)
        → i < s.total_count
        → is_set (mark_object s k).bitmap i ≡ (if k == i then true else is_set s.bitmap i) =
      λ i l. is_set-mark_object s k i (omega (arith, v.room)) (omega arith) in
    let less = clear_count_set s.bitmap (mark_object s k).bitmap s.total_count k below clear bits in
    let most = clear_count-le s.bitmap s.total_count in
    record {
      was_free = (below, clear);
      lowest = lowest;
      bits = bits;
      count = omega (arith, v.counted, v.bound, less, most);
      valid = record {
        room = omega (
          arith,
          v.room,
          length-zero_bytes (setbit s.bitmap k) (4 + k * s.obj_size) s.obj_size,
          length-setbit s.bitmap k,
        );
        bound = v.bound;
        counted = omega (arith, v.counted, v.bound, less, most);
      };
      same = (refl, refl);
    }

-- A valid slab of at most 32 objects with a free one: `slab_alloc_obj` does not panic; it takes the
-- lowest free object, marks it alone, and counts it.
pub take_object-Taken :
    (s : Slab)
    → IsValid s
    → s.total_count ≤ 32
    → 0 < s.free_count
    → (s' : Slab) × (k : ℕ) × (take_object s ≡ some (s', k)) × Taken s s' k
unfolding take_object take_at
take_object-Taken s v small free =
    found (firstzero s.bitmap s.total_count)
      (firstzero-LowestClear s.bitmap s.total_count (omega arith))
  where
    found :
        (r : Option ℕ)
        → LowestClear s.bitmap s.total_count r
        → (s' : Slab) × (k : ℕ) × (take_at s r ≡ some (s', k)) × Taken s s' k
    found none full =
        absurd (omega (arith, clear_count_full s.bitmap s.total_count full, v.counted))
    found (some k) lowest = (mark_object s k, k, refl, marked-Taken s k v small lowest)

-- The slab after object `k` was given back.
pub record Given (s s' : Slab) (k : ℕ) : Type 0 where
  pub bits : (i : ℕ) → is_set s'.bitmap i ≡ (if k == i then false else is_set s.bitmap i)
  pub count : s'.free_count ≡ s.free_count + 1
  pub valid : IsValid s'
  pub same : (s'.total_count ≡ s.total_count) × (s'.obj_size ≡ s.obj_size)

-- A valid slab: `slab_free_obj` of an object in use frees it alone, and counts it.
pub give_object-Given :
    (s : Slab) (k : ℕ)
    → IsValid s
    → k < s.total_count
    → is_set s.bitmap k ≡ true
    → (s' : Slab) × (give_object s k ≡ some s') × Given s s' k
unfolding give_object
give_object-Given s k v h used =
    let inside : leb s.total_count k ≡ false = ground arith in
    let bits : (i : ℕ)
        → is_set (clearbit s.bitmap k) i ≡ (if k == i then false else is_set s.bitmap i) =
      λ i. is_set-clearbit s.bitmap k i (omega (arith, v.room, h)) in
    let here : is_set (clearbit s.bitmap k) k ≡ false = bits k ∙ ground arith in
    let more =
      clear_count_set (clearbit s.bitmap k) s.bitmap s.total_count k h here
        (λ i l. ground (arith, bits i, used)) in
    let most = clear_count-le s.bitmap s.total_count in
    let least = clear_count-le (clearbit s.bitmap k) s.total_count in
    rw (inside, testbit-is_set s.bitmap k, used)
      (
        record s { free_count = (s.free_count + 1) % 2 ^ 32; bitmap = clearbit s.bitmap k },
        refl,
        record {
          bits = bits;
          count = omega (arith, v.counted, v.bound, more, most, least);
          valid = record {
            room = omega (arith, v.room, length-clearbit s.bitmap k);
            bound = v.bound;
            counted = omega (arith, v.counted, v.bound, more, most, least);
          };
          same = (refl, refl);
        },
      )

-- `slab_free_obj` panics on an index behind the last object and on an object that is free.
pub give_object_panics :
    (s : Slab) (k : ℕ) → (s.total_count ≤ k) ⊎ (is_set s.bitmap k ≡ false) → give_object s k ≡ none
unfolding give_object
give_object_panics s k (inl h) =
    let outside : leb s.total_count k ≡ true = ground arith in rw outside refl
give_object_panics s k (inr free) = rw (testbit-is_set s.bitmap k, free) (ground arith)

-- In a slab of 16-byte objects, fewer than 2 ^ 31, whose first object is free, `slab_alloc_obj` takes that object and
-- clears the bits of the objects 32 to 159: whatever of them is in use counts as free from then on.
pub take_object_wipes :
    (s : Slab)
    → s.obj_size ≡ 16
    → 0 < s.total_count
    → s.total_count < 2 ^ 31
    → is_set s.bitmap 0 ≡ false
    → (s' : Slab) × (take_object s ≡ some (s', 0))
      × ((i : ℕ) → 32 ≤ i → i < 160 → is_set s'.bitmap i ≡ false)
unfolding take_object take_at mark_object is_set
take_object_wipes s size some_object fits free =
    found (firstzero s.bitmap s.total_count) (firstzero-LowestClear s.bitmap s.total_count fits)
  where
    wiped : (i : ℕ) → 32 ≤ i → i < 160 → is_set (mark_object s 0).bitmap i ≡ false
    wiped i lo hi =
        rw
          (get_or-zero_bytes_in (setbit s.bitmap 0) (4 + 0 * s.obj_size) s.obj_size (i / 8)
            (omega arith) (omega (arith, size)))
          (test_bit-zero (i % 8))

    found :
        (r : Option ℕ)
        → LowestClear s.bitmap s.total_count r
        → (s' : Slab) × (take_at s r ≡ some (s', 0))
          × ((i : ℕ) → 32 ≤ i → i < 160 → is_set s'.bitmap i ≡ false)
    found none full = absurd (ground (arith, full 0 some_object, free))
    found (some zero) lowest = (mark_object s 0, refl, wiped)
    found (some (suc k)) (below, clear, lowest) =
        absurd (ground (arith, lowest 0 (omega arith), free))
