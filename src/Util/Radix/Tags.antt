-- ===== src/Util/Radix/Tags.antt =====
-- The tags of the radix tree: radix_tree_tag_set, radix_tree_tag_clear and radix_tree_tag_get.
use oscomp.Common.{
  ℕ, zero, suc, ◌/◌, ltb, leb, Bool, true, false, if◌then◌else◌, Option, none, some,
}
use oscomp.Common.Bits.{set_bit, clear_bit, test_bit}
use oscomp.Common.Errno.{Ret, ok, fail, einval, enoent}
use oscomp.Util.Radix.{Node, Slot, Root, empty, tree, capacity, index_in_node, update, attach}
mod Slots
pub mod Laws

abbrev pub max_tags : ℕ
max_tags = 3

-- The word of a tag, changed at the bit of a slot.
abbrev pub retag : {X : Type 0} → (ℕ → ℕ → ℕ) → Node X → ℕ → ℕ → Node X
retag change n tag o = record n { tags = update n.tags tag (change (n.tags tag) o) }

abbrev pub relinked : {X : Type 0} → Node X → ℕ → X × Ret → Option (Node X) × Ret
relinked n o (s, r) = (some (attach n o s), r)

-- The walk down to the slot of an index, which changes the tag in every node that it meets.
pub tag_slot : (h : ℕ) → (ℕ → ℕ → ℕ) → Slot h → ℕ → ℕ → Slot h × Ret
tag_slot zero change s index tag = (s, ok 0)
tag_slot (suc h) change none index tag = (none, fail enoent)
tag_slot (suc h) change (some n) index tag =
    let o = index_in_node index h in
    relinked (retag change n tag o) o (tag_slot h change (n.slots o) index tag)

abbrev pub replanted : (h : ℕ) → Slot (suc h) × Ret → Root × Ret
replanted h (none, r) = (empty, r)
replanted h (some n, r) = (tree h n, r)

abbrev pub tag_tree : (ℕ → ℕ → ℕ) → Root → ℕ → ℕ → Root × Ret
tag_tree change empty index tag = (empty, fail enoent)
tag_tree change (tree h n) index tag =
    if ltb (capacity (suc h)) index
    then (tree h n, fail enoent)
    else replanted h (tag_slot (suc h) change (some n) index tag)

unfoldable pub tag_set : Root → ℕ → ℕ → Root × Ret
unfolding tag_slot
tag_set r index tag = if leb max_tags tag then (r, fail einval) else tag_tree set_bit r index tag

unfoldable pub tag_clear : Root → ℕ → ℕ → Root × Ret
unfolding tag_slot
tag_clear r index tag =
    if leb max_tags tag then (r, fail einval) else tag_tree (clear_bit 64) r index tag

-- Every node on the way has the tag at its slot.
pub tagged_slot : (h : ℕ) → Slot h → ℕ → ℕ → Bool
tagged_slot zero s index tag = true
tagged_slot (suc h) none index tag = false
tagged_slot (suc h) (some n) index tag =
    if test_bit (n.tags tag) (index_in_node index h)
    then tagged_slot h (n.slots (index_in_node index h)) index tag
    else false

abbrev pub tagged_tree : Root → ℕ → ℕ → Bool
tagged_tree empty index tag = false
tagged_tree (tree h n) index tag =
    if ltb (capacity (suc h)) index then false else tagged_slot (suc h) (some n) index tag

-- The result 1 is true.
unfoldable pub tag_get : Root → ℕ → ℕ → Bool
unfolding tagged_slot
tag_get r index tag = if leb max_tags tag then false else tagged_tree r index tag
