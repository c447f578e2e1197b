-- ===== src/Util/Radix.antt =====
-- The radix trees of kernel/util/radix_tree.c and include/kernel/util/radix_tree.h: the nodes,
-- the lookup, the extension and the insertion. The children model the removal, the tags and the
-- walks, and prove what holds of them.
use oscomp.Common.{
  ℕ, zero, suc, ◌+◌, ◌-◌, ◌*◌, ◌/◌, ◌%◌, ◌^◌, ◌==◌, ltb, if◌then◌else◌, Option, none, some,
}
use oscomp.Common.Errno.{Ret, ok, fail, einval, eexist, enomem}
pub mod Remove
pub mod Tags
pub mod Walk
pub mod Index
pub mod Paths
pub mod Insert
pub mod Small
mod Tests

-- A node. `level` is its field `height`; a tag has 64 bits, one word.
pub record Node (X : Type 0) : Type 0 where
  pub level : ℕ
  pub count : ℕ
  pub tags : ℕ → ℕ
  pub slots : ℕ → X

-- What a slot above `h` levels of nodes holds: an item at the bottom, else a node; or null.
abbrev pub Slot : ℕ → Type 0
Slot zero = Option ℕ
Slot (suc h) = Option (Node (Slot h))

-- The root: height 0 and no node, or height h + 1 and a node. No operation leaves a height
-- without a node.
pub data Root : Type 0 where
  empty : Root
  tree : (h : ℕ) → Node (Slot h) → Root

abbrev pub height : Root → ℕ
height empty = 0
height (tree h n) = suc h

-- 1UL << (height * RADIX_TREE_MAP_SHIFT)
pub capacity : ℕ → ℕ
capacity h = 2 ^ (h * 6)

abbrev pub max_height : ℕ
max_height = 4

abbrev pub null_slot : (h : ℕ) → Slot h
null_slot zero = none
null_slot (suc h) = none

-- The offset in a node with `h` levels below it.
pub index_in_node : ℕ → ℕ → ℕ
unfolding capacity
index_in_node index h = index / capacity h % 64

abbrev pub update {ℓ} : {X : Type ℓ} → (ℕ → X) → ℕ → X → ℕ → X
update f i x j = if i == j then x else f j

-- A node as kzalloc gives it.
abbrev pub node_alloc : (h : ℕ) → Node (Slot h)
node_alloc h = record { level = 0; count = 0; tags = λ _. 0; slots = λ _. null_slot h }

-- The walk from a slot down to the item.
pub lookup_slot : (h : ℕ) → Slot h → ℕ → Option ℕ
lookup_slot zero item index = item
lookup_slot (suc h) none index = none
lookup_slot (suc h) (some n) index = lookup_slot h (n.slots (index_in_node index h)) index

pub lookup : Root → ℕ → Option ℕ
lookup empty index = none
lookup (tree h n) index =
    if ltb (capacity (suc h)) index then none else lookup_slot (suc h) (some n) index

-- The height for an index, where `rounds` levels are left up to the greatest height.
pub needed_height : ℕ → ℕ → ℕ → Option ℕ
needed_height zero h index = if ltb (capacity h) index then none else some h
needed_height (suc rounds) h index =
    let next = needed_height rounds (h + 1) index in if ltb (capacity h) index then next else some h

pub add_level : Root → Root
add_level empty = tree 0 (node_alloc 0)
add_level (tree h n) = tree (suc h) (record (node_alloc (suc h)) {
  level = suc h + 1;
  count = 1;
  slots = update (λ _. none) 0 (some n);
})

-- `budget` allocations succeed before the first that fails.
pub add_levels : ℕ → Root → ℕ → Root × ℕ × Ret
add_levels zero r budget = (r, budget, ok 0)
add_levels (suc n) r zero = (r, 0, fail enomem)
add_levels (suc n) r (suc budget) = add_levels n (add_level r) budget

abbrev pub extend_to : Root → ℕ → Option ℕ → Root × ℕ × Ret
extend_to r budget none = (r, budget, fail einval)
extend_to r budget (some h) = add_levels (h - height r) r budget

pub extend : Root → ℕ → ℕ → Root × ℕ × Ret
unfolding needed_height add_levels
extend r budget index = extend_to r budget (needed_height (max_height - height r) (height r) index)

-- A new child of a node with `suc h` levels below it.
abbrev pub child_alloc : (h : ℕ) → Node (Slot h)
child_alloc h = record (node_alloc h) { level = suc h }

abbrev pub attach : {X : Type 0} → Node X → ℕ → X → Node X
attach n o s = record n { slots = update n.slots o s }

abbrev pub attached :
    {X : Type 0} → Node (Option (Node X)) → ℕ → Node X × ℕ × Ret → Node (Option (Node X)) × ℕ × Ret
attached n o (c, budget, r) = (attach n o (some c), budget, r)

-- One round of the descent, at the child in the slot `o`: a missing one is allocated.
abbrev pub descend :
    (h : ℕ)
    → (Node (Slot h) → ℕ → Node (Slot h) × ℕ × Ret)
    → Node (Slot (suc h))
    → ℕ
    → Option (Node (Slot h))
    → ℕ
    → Node (Slot (suc h)) × ℕ × Ret
descend h next n o none zero = (n, 0, fail enomem)
descend h next n o none (suc rest) =
    attached (record n { count = (n.count + 1) % 2 ^ 32 }) o (next (child_alloc h) rest)
descend h next n o (some c) budget = attached n o (next c budget)

-- The descent from a node with `h` levels below it, for the rounds that are left.
pub grow_path : (h : ℕ) → Node (Slot h) → ℕ → ℕ → Node (Slot h) × ℕ × Ret
grow_path zero n budget index = (n, budget, ok 0)
grow_path (suc h) n budget index =
    let o = index_in_node index (suc h) in
    descend h (λ c rest. grow_path h c rest index) n o (n.slots o) budget

abbrev pub rooted : (h : ℕ) → Node (Slot h) × ℕ × Ret → Root × ℕ × Ret
rooted h (n, budget, r) = (tree h n, budget, r)

-- With height 0 the counter of the descent wraps, and its first round finds no node.
abbrev pub path_from : Root × ℕ × Ret → ℕ → Root × ℕ × Ret
path_from (r, budget, fail e) index = (r, budget, fail e)
path_from (empty, budget, ok n) index = (empty, budget, fail einval)
path_from (tree h t, budget, ok n) index = rooted h (grow_path h t budget index)

pub create_path : Root → ℕ → ℕ → Root × ℕ × Ret
unfolding extend grow_path
create_path r budget index = path_from (extend r budget index) index

-- `*slot_ptr = item`, through the slot that the descent has found.
pub store_slot : (h : ℕ) → Slot h → ℕ → ℕ → Slot h
store_slot zero s index item = some item
store_slot (suc h) none index item = none
store_slot (suc h) (some n) index item =
    some
      (attach n (index_in_node index h) (store_slot h (n.slots (index_in_node index h)) index item))

abbrev pub store_node : (h : ℕ) → Node (Slot h) → ℕ → ℕ → Node (Slot h)
store_node h n index item =
    attach n (index_in_node index h) (store_slot h (n.slots (index_in_node index h)) index item)

abbrev pub store_at : (h : ℕ) → Node (Slot h) → ℕ → ℕ → ℕ → Option ℕ → Root × ℕ × Ret
store_at h n budget index item none = (tree h (store_node h n index item), budget, ok 0)
store_at h n budget index item (some old) = (tree h n, budget, fail eexist)

abbrev pub insert_in : Root × ℕ × Ret → ℕ → ℕ → Root × ℕ × Ret
insert_in (r, budget, fail e) index item = (r, budget, fail e)
insert_in (empty, budget, ok _) index item = (empty, budget, ok 0)
insert_in (tree h n, budget, ok _) index item =
    store_at h n budget index item (lookup_slot (suc h) (some n) index)

pub insert : Root → ℕ → ℕ → Option ℕ → Root × ℕ × Ret
unfolding create_path lookup_slot store_slot
insert r budget index none = (r, budget, fail einval)
insert r budget index (some item) = insert_in (create_path r budget index) index item
