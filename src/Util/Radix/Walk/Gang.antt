-- ===== src/Util/Radix/Walk/Gang.antt =====
-- What radix_tree_gang_lookup finds.
use oscomp.Common.{
  ℕ, zero, suc, ◌+◌, ◌%◌, ◌^◌, ◌≤◌, ◌<◌, le→ltb, Option, none, some, List, ◌∷◌, length, get_or, ◌≡◌,
  refl, arith,
}
use oscomp.Util.Radix.{Root, lookup}
use oscomp.Util.Radix.Walk.{gang_from, gang_lookup, gather}

-- The items are those of the indices from `index` on, up to the first that has none.
pub record Run (r : Root) (index wanted : ℕ) (items : List ℕ) : Type 0 where
  pub at : (k : ℕ) → k < length items → lookup r (index + k) ≡ some (get_or items k 0)
  pub most : length items ≤ wanted
  pub ends : length items < wanted → lookup r (index + length items) ≡ none

Run-cons :
    (r : Root) (index wanted item : ℕ) (items : List ℕ)
    → lookup r index ≡ some item
    → Run r (index + 1) wanted items
    → Run r index (suc wanted) (item ∷ items)
Run-cons r index wanted item items e run = record {
  at = at;
  most = omega (arith, run.most);
  ends = λ lt.
      let shift : index + suc (length items) ≡ index + 1 + length items = omega arith in
      rw shift (run.ends (omega arith));
}
  where
    at : (k : ℕ) → k < suc (length items) → lookup r (index + k) ≡ some (get_or (item ∷ items) k 0)
    at zero lt = let same : index + 0 ≡ index = omega arith in rw same e
    at (suc k) lt =
        let shift : index + suc k ≡ index + 1 + k = omega arith in rw shift (run.at k (omega arith))

gather-Run :
    (r : Root) (index wanted : ℕ) (found : Option ℕ) (rest : List ℕ)
    → lookup r index ≡ found
    → Run r (index + 1) wanted rest
    → Run r index (suc wanted) (gather found rest)
gather-Run r index wanted none rest e run =
    let same : index + 0 ≡ index = omega arith in
    record { at = λ k lt. absurd (omega arith); most = omega arith; ends = λ lt. rw same e }
gather-Run r index wanted (some item) rest e run = Run-cons r index wanted item rest e run

gang_from-Run :
    (wanted : ℕ) (r : Root) (first index : ℕ)
    → first ≤ index
    → index + wanted < 2 ^ 64
    → Run r index wanted (gang_from wanted r first index)
unfolding gang_from
gang_from-Run zero r first index le fits = record {
  at = λ k lt. absurd (omega arith);
  most = omega arith;
  ends = λ lt. absurd (omega arith);
}
gang_from-Run (suc wanted) r first index le fits =
    let next : (index + 1) % 2 ^ 64 ≡ index + 1 = omega arith in
    rw (next, le→ltb (index + 1) first (omega arith))
      (gather-Run r index wanted (lookup r index) (gang_from wanted r first (index + 1)) refl
        (gang_from-Run wanted r first (index + 1) (omega arith) (omega arith)))

-- If the indices asked for end below 2 ^ 64, radix_tree_gang_lookup gives the items of the indices
-- from the first on, at most as many as wanted, and stops before the first index without an item.
pub gang_lookup-Run :
    (r : Root) (first max_items : ℕ)
    → first + max_items < 2 ^ 64
    → Run r first max_items (gang_lookup r first max_items)
unfolding gang_lookup
gang_lookup-Run r first max_items fits = gang_from-Run max_items r first first (omega arith) fits
