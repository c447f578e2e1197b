-- ===== src/Util/Radix/Walk.antt =====
-- The walks over the radix tree: radix_tree_gang_lookup and radix_tree_count_items.
use oscomp.Common.{
  ℕ, zero, suc, ◌+◌, ◌%◌, ◌^◌, ltb, if◌then◌else◌, Option, none, some, List, [], ◌∷◌,
}
use oscomp.Util.Radix.{Node, Slot, Root, empty, tree, lookup}
pub mod Gang
pub mod Count

-- What is left of the loop of radix_tree_gang_lookup after an item was found.
abbrev pub found_item : ℕ → ℕ → List ℕ → List ℕ
found_item first next rest = if ltb next first then [] else rest

abbrev pub gather : Option ℕ → List ℕ → List ℕ
gather none rest = []
gather (some item) rest = item ∷ rest

-- The loop, for the results that are wanted still.
pub gang_from : ℕ → Root → ℕ → ℕ → List ℕ
gang_from zero r first index = []
gang_from (suc wanted) r first index =
    let next = (index + 1) % 2 ^ 64 in
    let rest = gang_from wanted r first next in gather (lookup r index) (found_item first next rest)

unfoldable pub gang_lookup : Root → ℕ → ℕ → List ℕ
unfolding gang_from
gang_lookup r first max_items = gang_from max_items r first first

-- `for (i = 0; i < n; i++) count += f(i)`
pub sum_slots : (ℕ → ℕ) → ℕ → ℕ
sum_slots f zero = 0
sum_slots f (suc i) = sum_slots f i + f i

abbrev pub one_if_some : Option ℕ → ℕ
one_if_some none = 0
one_if_some (some item) = 1

abbrev pub count_below : {X : Type 0} → (X → ℕ) → Option X → ℕ
count_below f none = 0
count_below f (some c) = f c

-- The items below a node.
pub count_node : (h : ℕ) → Node (Slot h) → ℕ
unfolding sum_slots
count_node zero n = sum_slots (λ i. one_if_some (n.slots i)) 64
count_node (suc h) n = sum_slots (λ i. count_below (λ c. count_node h c) (n.slots i)) 64

unfoldable pub count_items : Root → ℕ
unfolding count_node
count_items empty = 0
count_items (tree h n) = count_node h n
