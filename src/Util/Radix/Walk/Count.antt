-- ===== src/Util/Radix/Walk/Count.antt =====
-- radix_tree_count_items counts the indices at which the tree has an item.
use oscomp.Common.{
  ℕ, zero, suc, ◌+◌, ◌*◌, ◌/◌, ◌%◌, ◌<◌, true, none, some, ◌≡◌, ==_self, le→ltb, refl, sym, ap, ◌∙◌,
  arith,
}
use native.Mathlib.Nat.{mul-add-mod_self_left, mul-add-div, div-eq_of_lt}
use oscomp.Util.Radix.{
  Node, Slot, Root, empty, tree, height, capacity, index_in_node, lookup, lookup_slot,
}
use oscomp.Util.Radix.Index.{same_path, same_path-mod, capacity-suc}
use oscomp.Util.Radix.Paths.{lookup_slot-same_path}
use oscomp.Util.Radix.Walk.{sum_slots, one_if_some, count_below, count_node, count_items}

sum_slots-cong :
    (f g : ℕ → ℕ) (n : ℕ) → ((i : ℕ) → i < n → f i ≡ g i) → sum_slots f n ≡ sum_slots g n
unfolding sum_slots
sum_slots-cong f g zero h = refl
sum_slots-cong f g (suc n) h =
    omega (arith, sum_slots-cong f g n (λ i lt. h i (omega arith)), h n (omega arith))

sum_slots-add :
    (f : ℕ → ℕ) (a b : ℕ) → sum_slots f (a + b) ≡ sum_slots f a + sum_slots (λ i. f (a + i)) b
unfolding sum_slots
sum_slots-add f a zero = let same : a + 0 ≡ a = omega arith in rw same (omega arith)
sum_slots-add f a (suc b) =
    let same : a + suc b ≡ suc (a + b) = omega arith in rw same (omega (arith, sum_slots-add f a b))

-- A sum over `n` rows of `p`.
sum_slots-rows :
    (f : ℕ → ℕ) (p n : ℕ)
    → sum_slots f (p * n) ≡ sum_slots (λ o. sum_slots (λ r. f (p * o + r)) p) n
unfolding sum_slots
sum_slots-rows f p zero = let same : p * 0 ≡ 0 = omega arith in rw same
sum_slots-rows f p (suc n) =
    let same : p * suc n ≡ p * n + p = grind arith in
    rw same (
      sum_slots-add f (p * n) p
      ∙ ap (λ t. t + sum_slots (λ r. f (p * n + r)) p) (sum_slots-rows f p n))

lookup_slot-row :
    (h : ℕ) (n : Node (Slot h)) (o r : ℕ)
    → o < 64
    → r < capacity h
    → lookup_slot (suc h) (some n) (capacity h * o + r) ≡ lookup_slot h (n.slots o) r
unfolding lookup_slot index_in_node
lookup_slot-row h n o r lt fits =
    let p = capacity h in
    let digit : (p * o + r) / p % 64 ≡ o =
      omega (arith, mul-add-div {m = p} (omega arith) o r, div-eq_of_lt fits) in
    let rest : same_path h (p * o + r) r ≡ true =
      same_path-mod h (p * o + r) r ∙ rw (mul-add-mod_self_left p o r) (==_self (r % p)) in
    lookup_slot-same_path h (n.slots ((p * o + r) / p % 64)) (p * o + r) r rest
    ∙ ap (λ d. lookup_slot h (n.slots d) r) digit

-- The number of indices below the capacity at which an item is found.
pub count_found : (h : ℕ) → Slot h → ℕ
count_found h s = sum_slots (λ i. one_if_some (lookup_slot h s i)) (capacity h)

count_found-node :
    (h : ℕ) (n : Node (Slot h))
    → count_found (suc h) (some n) ≡ sum_slots (λ o. count_found h (n.slots o)) 64
unfolding count_found
count_found-node h n = rw (capacity-suc h) (
    sum_slots-rows (λ i. one_if_some (lookup_slot (suc h) (some n) i)) (capacity h) 64
    ∙ sum_slots-cong _ _ 64 (λ o lt.
      sum_slots-cong _ _ (capacity h) (λ r fits. ap one_if_some (lookup_slot-row h n o r lt fits))))

count_found-item : (s : Slot 0) → count_found 0 s ≡ one_if_some s
unfolding count_found sum_slots capacity lookup_slot
count_found-item s = omega arith

sum_slots-zero : (n : ℕ) → sum_slots (λ i. 0) n ≡ 0
unfolding sum_slots
sum_slots-zero zero = refl
sum_slots-zero (suc n) = omega (arith, sum_slots-zero n)

count_below-found :
    (h : ℕ) (s : Slot (suc h))
    → ((c : Node (Slot h)) → count_node h c ≡ count_found (suc h) (some c))
    → count_below (λ c. count_node h c) s ≡ count_found (suc h) s
unfolding count_found lookup_slot
count_below-found h none ih = sym (sum_slots-zero (capacity (suc h)))
count_below-found h (some c) ih = ih c

count_node-found : (h : ℕ) (n : Node (Slot h)) → count_node h n ≡ count_found (suc h) (some n)
unfolding count_node
count_node-found zero n =
    sum_slots-cong _ _ 64 (λ o lt. sym (count_found-item (n.slots o))) ∙ sym (count_found-node 0 n)
count_node-found (suc h) n =
    sum_slots-cong _ _ 64 (λ o lt. count_below-found h (n.slots o) (λ c. count_node-found h c))
    ∙ sym (count_found-node (suc h) n)

lookup-in_range :
    (h : ℕ) (n : Node (Slot h)) (i : ℕ)
    → i < capacity (suc h)
    → lookup_slot (suc h) (some n) i ≡ lookup (tree h n) i
unfolding lookup
lookup-in_range h n i lt = rw (le→ltb (capacity (suc h)) i (omega arith))

count_found-lookup :
    (h : ℕ) (n : Node (Slot h))
    → count_found (suc h) (some n)
      ≡ sum_slots (λ i. one_if_some (lookup (tree h n) i)) (capacity (suc h))
unfolding count_found
count_found-lookup h n =
    sum_slots-cong _ _ (capacity (suc h)) (λ i lt. ap one_if_some (lookup-in_range h n i lt))

-- radix_tree_count_items is the number of indices below the capacity of the tree at which
-- radix_tree_lookup finds an item.
pub count_items-lookup :
    (r : Root) → count_items r ≡ sum_slots (λ i. one_if_some (lookup r i)) (capacity (height r))
unfolding count_items lookup
count_items-lookup empty = sym (sum_slots-zero (capacity 0))
count_items-lookup (tree h n) = count_node-found h n ∙ count_found-lookup h n
