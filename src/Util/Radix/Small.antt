-- ===== src/Util/Radix/Small.antt =====
-- Where the tests of the height take the greatest index of a tree for one in range.
use oscomp.Common.{ℕ, suc, ◌≤◌, ◌<◌, le→ltb, some, ◌≡◌, refl, ◌∙◌, arith, true}
use native.Mathlib.Nat.{mod_self, zero-mod}
use oscomp.Common.Errno.{fail, einval}
use oscomp.Util.Radix.{
  Root, empty, tree, height, capacity, lookup, insert, create_path, extend, needed_height,
}
use oscomp.Util.Radix.Index.{same_path, same_path-mod}
use oscomp.Util.Radix.Paths.{lookup_slot-same_path}

-- In a tree of any height h above 0, the index 64 ^ h is found where 0 is.
pub lookup-capacity : (r : Root) → 0 < height r → lookup r (capacity (height r)) ≡ lookup r 0
unfolding lookup
lookup-capacity empty pos = absurd (omega arith)
lookup-capacity (tree h n) pos =
    let c = capacity (suc h) in
    let same : same_path (suc h) c 0 ≡ true =
      same_path-mod (suc h) c 0 ∙ rw (mod_self c, zero-mod c) refl in
    rw (le→ltb c c (omega arith), le→ltb c 0 (omega arith))
      (lookup_slot-same_path (suc h) (some n) c 0 same)

-- No item can be put into an empty tree at 0 or 1.
pub insert-empty :
    (budget i item : ℕ) → i ≤ 1 → insert empty budget i (some item) ≡ (empty, budget, fail einval)
unfolding insert create_path extend needed_height capacity
insert-empty budget i item le = rw (le→ltb 1 i le)
