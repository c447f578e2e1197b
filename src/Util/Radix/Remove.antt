-- ===== src/Util/Radix/Remove.antt =====
-- The removal from the radix tree: radix_tree_delete, radix_tree_delete_node and
-- radix_tree_shrink.
use oscomp.Common.{
  Bool, true, ℕ, zero, suc, ◌+◌, ◌-◌, ◌%◌, ◌^◌, ◌==◌, ◌&&◌, ltb, if◌then◌else◌, Option, none, some,
}
use oscomp.Util.Radix.{
  Node, Slot, Root, empty, tree, capacity, index_in_node, update, attach, lookup_slot,
}
pub mod Laws
pub mod Delete

-- `count--` of a uint32
abbrev pub count_down : {X : Type 0} → Node X → Node X
count_down n = record n { count = (n.count + (2 ^ 32 - 1)) % 2 ^ 32 }

-- radix_tree_node_can_delete, and the node or null.
abbrev pub keep_node : {X : Type 0} → Node X → Option (Node X)
keep_node n = if n.count == 0 then none else some n

-- The node with the child that is left, null if it was freed.
abbrev pub relink : {X : Type 0} → Node (Option X) → ℕ → Option X → Option (Node (Option X))
relink n o none = keep_node (count_down (attach n o none))
relink n o (some c) = keep_node (attach n o (some c))

-- The path is there when this is called: no child on it is null.
pub delete_node : (h : ℕ) → Node (Slot h) → ℕ → Option (Node (Slot h))
delete_node zero n index = keep_node (count_down (attach n (index_in_node index 0) none))
delete_node (suc h) n index =
    let o = index_in_node index (suc h) in
    relink n o (elim (n.slots o) [ none ↦ none | some c ↦ delete_node h c index ])

-- `node->slots[offset] = NULL; node->count--;` at the leaf on the path.
pub clear_item : (h : ℕ) → Node (Slot h) → ℕ → Node (Slot h)
clear_item zero n index = count_down (attach n (index_in_node index 0) none)
clear_item (suc h) n index =
    let o = index_in_node index (suc h) in
    attach n o (elim (n.slots o) [ none ↦ none | some c ↦ some (clear_item h c index) ])

-- `child->height == node->height - 1`
abbrev pub is_next_level : ℕ → ℕ → Bool
is_next_level child node = child == (node + (2 ^ 32 - 1)) % 2 ^ 32

pub shrink : (h : ℕ) → Node (Slot h) → Root
shrink zero n = tree 0 n
shrink (suc h) n = elim (n.slots 0) [
  | none ↦ tree (suc h) n
  | some c ↦
      let lower = shrink h c in
      if (n.count == 1) && is_next_level c.level n.level then lower else tree (suc h) n
]

-- A leaf that is the whole tree.
abbrev pub delete_leaf : Node (Slot 0) → ℕ → Option ℕ → Option (Root × Option ℕ)
delete_leaf n index none = some (tree 0 n, none)
delete_leaf n index (some item) =
    let n' = clear_item 0 n index in some (if n'.count == 0 then empty else tree 0 n', some item)

-- Where the node of the root was freed, root->node still leads to it, and the shrinking reads it:
-- the result is none.
abbrev pub shrunk : (h : ℕ) → ℕ → Option (Node (Slot h)) → Option (Root × Option ℕ)
shrunk h item none = none
shrunk h item (some n) = some (shrink h n, some item)

abbrev pub delete_item : (h : ℕ) → Node (Slot h) → ℕ → Option ℕ → Option (Root × Option ℕ)
delete_item h n index none = some (tree h n, none)
delete_item h n index (some item) = shrunk h item (delete_node h (clear_item h n index) index)

abbrev pub delete_in : Root → ℕ → Option (Root × Option ℕ)
delete_in empty index = some (empty, none)
delete_in (tree zero n) index = delete_leaf n index (n.slots (index_in_node index 0))
delete_in (tree (suc h) n) index =
    delete_item (suc h) n index (lookup_slot (suc (suc h)) (some n) index)

abbrev pub out_of_range : Root → ℕ → Bool
out_of_range empty index = true
out_of_range (tree h n) index = ltb (capacity (suc h)) index

-- radix_tree_delete: the tree and the item that was found.
unfoldable pub delete : Root → ℕ → Option (Root × Option ℕ)
unfolding delete_node clear_item shrink lookup_slot
delete r index = if out_of_range r index then some (r, none) else delete_in r index
