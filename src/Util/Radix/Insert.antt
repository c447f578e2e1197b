-- ===== src/Util/Radix/Insert.antt =====
-- The extension and the insertion, against the map from indices to items that the lookup shows.
mod Extend
use oscomp.Common.{
  ℕ, zero, suc, ◌+◌, ◌≤◌, ◌<◌, ◌==◌, ◌≡◌, ◌≢◌, ◌⊎◌, inl, inr, ◌∙◌, ap, sym, refl, Option, none,
  some, Option-cases, Bool-cases, ltb→lt, ltb→le, ltb, if◌then◌else◌, le→ltb, arith,
}
use mathlib.Core.Option.{none-ne-some}
use oscomp.Common.Errno.{Ret, ok, fail, Errno, einval, eexist, enomem}
use oscomp.Util.Radix.{
  Node, Slot, Root, empty, tree, height, capacity, max_height, lookup, lookup_slot, insert,
  insert_in, store_at, extend, create_path, path_from, rooted, grow_path, index_in_node, store_slot,
  store_node,
}
use oscomp.Util.Radix.Index.{Plain, same_path, same_path-eq}
use oscomp.Util.Radix.Paths.{
  Reaches, Grown, grow_path-Grown, grow_path-lookup, lookup_slot-store_slot,
}
use Extend.{Same, Extended, extend-Extended}

-- Why no path is made: the index is too great, the tree is empty and the index 0, or fewer than eight
-- allocations succeed, which is as many as are needed at most.
abbrev pub Refused : Root → ℕ → ℕ → Errno → Type 0
Refused r i b e =
    ((e ≡ einval) × (capacity max_height < i))
    ⊎ ((e ≡ einval) × (height r ≡ 0) × (i ≡ 0))
    ⊎ ((e ≡ enomem) × (b < 8))

-- A success leads to the slot of the index.
abbrev pub PathMade : Root → ℕ → ℕ → Root × ℕ × Ret → Type 0
PathMade r i b (empty, budget, ok k) = ⊥
PathMade r i b (tree h n, budget, ok k) =
    Same r (tree h n) × (suc h ≤ max_height) × (i < capacity (suc h)) × Reaches (suc h) (some n) i
PathMade r i b (r', budget, fail e) = Same r r' × (height r' ≤ max_height) × Refused r i b e

capacity-zero : capacity 0 ≡ 1
unfolding capacity
capacity-zero = refl

stored-lookup :
    (h : ℕ) (n : Node (Slot h)) (i j item : ℕ)
    → Reaches (suc h) (some n) i
    → lookup_slot (suc h) (some (store_node h n i item)) j
      ≡ (if same_path (suc h) i j then some item else lookup_slot (suc h) (some n) j)
unfolding store_slot
stored-lookup h n i j item reach = lookup_slot-store_slot (suc h) (some n) i j item reach

lookup-tree :
    (h : ℕ) (n : Node (Slot h)) (j : ℕ)
    → lookup (tree h n) j
      ≡ (if ltb (capacity (suc h)) j then none else lookup_slot (suc h) (some n) j)
unfolding lookup
lookup-tree h n j = refl

rooted-PathMade :
    (r : Root) (h : ℕ) (n : Node (Slot h)) (i b left : ℕ) (p : Node (Slot h) × ℕ × Ret)
    → Same r (tree h n)
    → suc h ≤ max_height
    → b ≤ left + max_height
    → i < capacity (suc h)
    → Grown h i left p
    → ((j : ℕ) → lookup_slot (suc h) (some p.0) j ≡ lookup_slot (suc h) (some n) j)
    → PathMade r i b (rooted h p)
rooted-PathMade r h n i b left (n', budget, ok k) s top spent lt g keeps =
    (λ j pj. rw (lookup-tree h n' j, keeps j, ← lookup-tree h n j) (s j pj), top, lt, g)
rooted-PathMade r h n i b left (n', budget, fail e) s top spent lt (g, few) keeps = (
  λ j pj. rw (lookup-tree h n' j, keeps j, ← lookup-tree h n j) (s j pj),
  top,
  inr (inr (g, omega arith)),
)

path_from-PathMade :
    (r : Root) (i b : ℕ) (p : Root × ℕ × Ret)
    → Plain i
    → Extended r i b p
    → PathMade r i b (path_from p i)
path_from-PathMade r i b (r', budget, fail e) pi (s, top, inl (a, c)) = (s, top, inl (a, c))
path_from-PathMade r i b (r', budget, fail e) pi (s, top, inr (a, few)) =
    (s, top, inr (inr (a, omega arith)))
path_from-PathMade r i b (empty, budget, ok k) pi (s, top, le, up, spent) =
    (s, top, inr (inl (refl, omega arith, omega (arith, pi 0, capacity-zero))))
path_from-PathMade r i b (tree h n, budget, ok k) pi (s, top, le, up, spent) =
    rooted-PathMade r h n i b budget (grow_path h n budget i) s top spent
      (omega (arith, pi (suc h))) (grow_path-Grown h n budget i) (grow_path-lookup h n budget i)

pub create_path-PathMade :
    (r : Root) (budget i : ℕ)
    → Plain i
    → height r ≤ max_height
    → PathMade r i budget (create_path r budget i)
unfolding create_path
create_path-PathMade r budget i pi top =
    path_from-PathMade r i budget (extend r budget i) pi (extend-Extended r budget i top)

-- What an insertion of `item` at `i` does to the map.
abbrev pub Inserted : Root → ℕ → ℕ → ℕ → Root × ℕ × Ret → Type 0
Inserted r i item b (r', budget, ok k) =
    (lookup r i ≡ none)
    × ((j : ℕ) → Plain j → lookup r' j ≡ (if i == j then some item else lookup r j))
    × (height r' ≤ max_height)
Inserted r i item b (r', budget, fail e) =
    Same r r' × (((e ≡ eexist) × (lookup r i ≢ none)) ⊎ Refused r i b e) × (height r' ≤ max_height)

-- The store, where the index is in range and the path is there.
lookup-store_node :
    (h : ℕ) (n : Node (Slot h)) (i j item : ℕ)
    → i < capacity (suc h)
    → Plain j
    → Reaches (suc h) (some n) i
    → lookup (tree h (store_node h n i item)) j
      ≡ (if i == j then some item else lookup (tree h n) j)
unfolding lookup
lookup-store_node h n i j item lt p reach = elim (Bool-cases (ltb (capacity (suc h)) j)) [
  | inl out ↦ let far = ltb→lt _ _ out in rw out (ground arith)
  | inr in_range ↦
      let near : j < capacity (suc h) = omega (arith, ltb→le _ _ in_range, p (suc h)) in
      rw (in_range, ← same_path-eq (suc h) i j lt near) (stored-lookup h n i j item reach)
]

store_at-Inserted :
    (r : Root) (h : ℕ) (n : Node (Slot h)) (budget b i item : ℕ) (found : Option ℕ)
    → Plain i
    → PathMade r i b (tree h n, budget, ok 0)
    → lookup (tree h n) i ≡ found
    → Inserted r i item b (store_at h n budget i item found)
store_at-Inserted r h n budget b i item none pi (s, top, lt, reach) e =
    (sym (s i pi) ∙ e, λ j pj. lookup-store_node h n i j item lt pj reach ∙ rw (s j pj), top)
store_at-Inserted r h n budget b i item (some old) pi (s, top, lt, reach) e =
    (s, inl (refl, λ n'. none-ne-some old (sym n' ∙ sym (s i pi) ∙ e)), top)

insert_in-Inserted :
    (r : Root) (i item b : ℕ) (p : Root × ℕ × Ret)
    → Plain i
    → PathMade r i b p
    → Inserted r i item b (insert_in p i item)
insert_in-Inserted r i item b (r', budget, fail e) pi (s, top, why) = (s, inr why, top)
insert_in-Inserted r i item b (empty, budget, ok k) pi h = absurd h
insert_in-Inserted r i item b (tree h n, budget, ok k) pi (s, top, lt, reach) =
    store_at-Inserted r h n budget b i item (lookup_slot (suc h) (some n) i) pi (s, top, lt, reach)
      (lookup-tree h n i ∙ rw (le→ltb (capacity (suc h)) i (omega arith)))

-- Of the map from the indices that are not powers of 64: an insertion at one of them puts the item into
-- it where nothing was, or fails and leaves it as it is. It fails with -EEXIST only where an item is,
-- with -EINVAL only for an index above the greatest or for 0 in an empty tree, and with -ENOMEM only if
-- fewer than eight allocations succeed. What it does to the powers of 64 is not said.
pub insert-Inserted :
    (r : Root) (budget i item : ℕ)
    → Plain i
    → height r ≤ max_height
    → Inserted r i item budget (insert r budget i (some item))
unfolding insert
insert-Inserted r budget i item pi top =
    insert_in-Inserted r i item budget (create_path r budget i) pi
      (create_path-PathMade r budget i pi top)
