-- ===== src/Util/Radix/Remove/Delete.antt =====
-- radix_tree_delete against the map that the lookup shows.
use oscomp.Common.{
  ℕ, zero, suc, ◌^◌, ◌<◌, ◌==◌, ltb, ltb→le, ==_iff, ==_ne, Bool, true, false, if◌then◌else◌,
  Bool-cases, Option, none, some, ◌≡◌, ◌≢◌, refl, sym, ◌∙◌, inl, inr, arith,
}
use oscomp.Util.Radix.{Node, Slot, Root, empty, tree, capacity, index_in_node, lookup, lookup_slot}
use oscomp.Util.Radix.Index.{Plain, same_path, same_path-eq}
use oscomp.Util.Radix.Remove.{clear_item, delete_leaf, delete_in, delete, delete_item, out_of_range}
use oscomp.Util.Radix.Remove.Laws.{
  Deletable, Deleted, Without, clear_item-Without, delete_node-Stays, Kept-clear_item,
  count-clear_item, shrink_wide,
}

nothing_lost : (r : Root) (i : ℕ) → lookup r i ≡ none → Deleted r i (some (r, none))
nothing_lost r i e = (
  r,
  rw e,
  λ j p. elim (Bool-cases (i == j)) [
    | inl same ↦ let eq = (==_iff i j).0 same in rw (same, ← eq) e
    | inr differ ↦ rw differ
  ],
)

lookup-near :
    (h : ℕ) (n : Node (Slot h)) (j : ℕ)
    → ltb (capacity (suc h)) j ≡ false
    → lookup (tree h n) j ≡ lookup_slot (suc h) (some n) j
unfolding lookup
lookup-near h n j e = rw e

lookup-far : (r : Root) (j : ℕ) → out_of_range r j ≡ true → lookup r j ≡ none
unfolding lookup
lookup-far empty j e = refl
lookup-far (tree h n) j e = rw e

tree-Without :
    (h : ℕ) (n m : Node (Slot h)) (i : ℕ)
    → i < capacity (suc h)
    → Without (suc h) (some n) i (some m)
    → (j : ℕ) → Plain j
    → lookup (tree h m) j ≡ (if i == j then none else lookup (tree h n) j)
tree-Without h n m i lt w j p = elim (Bool-cases (ltb (capacity (suc h)) j)) [
  | inl far ↦ rw (lookup-far (tree h m) j far, lookup-far (tree h n) j far) (ground arith)
  | inr near ↦
      rw
        (
          lookup-near h m j near,
          lookup-near h n j near,
          ← same_path-eq (suc h) i j lt (omega (arith, ltb→le _ _ near, p (suc h))),
        )
        (w j)
]

count_left :
    (n : Node (Slot 0)) (i : ℕ) → n.count ≢ 1 → n.count < 2 ^ 32 → (clear_item 0 n i).count ≢ 0
unfolding clear_item
count_left n i ne lt = λ e. omega arith

twice :
    (b : Bool) (x : Option ℕ)
    → (if b then none else if b then none else x) ≡ (if b then none else x)
twice true x = refl
twice false x = refl

leaf-Deleted :
    (n : Node (Slot 0)) (i : ℕ) (found : Option ℕ)
    → i < capacity 1
    → lookup (tree 0 n) i ≡ found
    → Deletable (tree 0 n) i found
    → Deleted (tree 0 n) i (delete_leaf n i found)
leaf-Deleted n i none lt e d = nothing_lost (tree 0 n) i e
leaf-Deleted n i (some item) lt e (ne, fits) = (
  tree 0 (clear_item 0 n i),
  rw (e, ==_ne (clear_item 0 n i).count 0 (count_left n i ne fits)),
  tree-Without 0 n (clear_item 0 n i) i lt (clear_item-Without 0 n i),
)

inner-Deleted :
    (h : ℕ) (n : Node (Slot (suc h))) (i : ℕ) (found : Option ℕ)
    → i < capacity (suc (suc h))
    → lookup (tree (suc h) n) i ≡ found
    → Deletable (tree (suc h) n) i found
    → Deleted (tree (suc h) n) i (delete_item (suc h) n i found)
inner-Deleted h n i none lt e d = nothing_lost (tree (suc h) n) i e
inner-Deleted h n i (some item) lt e (wide, kept) =
    let (m, deleted, w, same) =
      delete_node-Stays (suc h) (clear_item (suc h) n i) i (Kept-clear_item (suc h) n i kept) in
    let count : m.count ≡ n.count = same h refl ∙ count-clear_item h n i in
    (
      tree (suc h) m,
      rw (deleted, e, shrink_wide h m (λ eq. wide (sym count ∙ eq))) refl,
      tree-Without (suc h) n m i lt (λ j.
          w j
          ∙ rw (clear_item-Without (suc h) n i j)
              (twice (same_path (suc (suc h)) i j) (lookup_slot (suc (suc h)) (some n) j))),
    )

in_range-Deleted :
    (r : Root) (i : ℕ)
    → Plain i
    → out_of_range r i ≡ false
    → Deletable r i (lookup r i)
    → Deleted r i (delete_in r i)
unfolding lookup_slot
in_range-Deleted empty i p near d = absurd (ground arith)
in_range-Deleted (tree zero n) i p near d =
    let found = lookup-near 0 n i near in
    leaf-Deleted n i (n.slots (index_in_node i 0)) (omega (arith, ltb→le _ _ near, p 1)) found
      (rw (← found) d)
in_range-Deleted (tree (suc h) n) i p near d =
    let found = lookup-near (suc h) n i near in
    inner-Deleted h n i (lookup_slot (suc (suc h)) (some n) i)
      (omega (arith, ltb→le _ _ near, p (suc (suc h)))) found (rw (← found) d)

-- radix_tree_delete at an index that is not a power of 64 returns the item there and takes it
-- alone from the map of those indices, or returns null where there is none; if its leaf is not at
-- the end of its count and the root has other children. Nothing is said of the powers of 64.
pub delete-Deleted :
    (r : Root) (i : ℕ) → Plain i → Deletable r i (lookup r i) → Deleted r i (delete r i)
unfolding delete
delete-Deleted r i p d = elim (Bool-cases (out_of_range r i)) [
  | inl far ↦ rw far (nothing_lost r i (lookup-far r i far))
  | inr near ↦ rw near (in_range-Deleted r i p near d)
]
