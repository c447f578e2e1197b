-- ===== src/Util/Radix/Tags/Laws.antt =====
-- What a change of a tag does to the tags of every index.
use oscomp.Common.{
  ℕ, suc, ◌≤◌, ◌<◌, ◌==◌, ltb, leb, lt→leb, le→ltb, ltb→le, leb, Bool, true, false, if◌then◌else◌,
  Bool-cases, none, some, ◌≡◌, ◌≢◌, refl, ap, sym, ◌∙◌, inl, inr, arith,
}
use oscomp.Common.Bits.{set_bit, clear_bit}
use oscomp.Common.Errno.{ok, fail, einval, enoent}
use oscomp.Util.Radix.{Node, Slot, Root, empty, tree, height, capacity, index_in_node, lookup}
use oscomp.Util.Radix.Tags.Slots.{
  tag_slot-lookup, tag_slot-other, clear-tagged, set-tagged, set-keeps, all_false,
}
use oscomp.Util.Radix.Tags.{
  max_tags, tag_slot, tag_tree, tag_set, tag_clear, tagged_slot, tagged_tree, tag_get, replanted,
}

-- The tags of the trees.
tagged_tree-replanted :
    (h : ℕ) (change : ℕ → ℕ → ℕ) (n : Node (Slot h)) (i t j u : ℕ)
    → tagged_tree (replanted h (tag_slot (suc h) change (some n) i t)).0 j u ≡ (
        if ltb (capacity (suc h)) j
        then false
        else tagged_slot (suc h) (tag_slot (suc h) change (some n) i t).0 j u)
unfolding tag_slot
tagged_tree-replanted h change n i t j u = refl

lookup-replanted :
    (h : ℕ) (change : ℕ → ℕ → ℕ) (n : Node (Slot h)) (i t j : ℕ)
    → lookup (replanted h (tag_slot (suc h) change (some n) i t)).0 j ≡ lookup (tree h n) j
unfolding lookup tag_slot
lookup-replanted h change n i t j =
    ap (λ s. if ltb (capacity (suc h)) j then none else s)
      (tag_slot-lookup (suc h) change (some n) i t j)

-- The offset of an index in the node of the root.
pub first_offset : Root → ℕ → ℕ
first_offset empty i = 0
first_offset (tree h n) i = index_in_node i h

-- The tag is gone from every index behind the same slot of the first node, and all else stays.
pub record Cleared (r : Root) (i t : ℕ) (r' : Root) : Type 0 where
  pub items : (j : ℕ) → lookup r' j ≡ lookup r j
  pub others : (j u : ℕ) → t ≢ u → tag_get r' j u ≡ tag_get r j u
  pub tags :
      (j : ℕ)
      → tag_get r' j t ≡ (if first_offset r i == first_offset r j then false else tag_get r j t)

tree_others :
    (h : ℕ) (change : ℕ → ℕ → ℕ) (n : Node (Slot h)) (i t j u : ℕ)
    → t ≢ u
    → tag_get (replanted h (tag_slot (suc h) change (some n) i t)).0 j u ≡ tag_get (tree h n) j u
unfolding tag_get
tree_others h change n i t j u ne =
    ap (λ b. if leb max_tags u then false else b)
      (tagged_tree-replanted h change n i t j u
        ∙ ap (λ b. if ltb (capacity (suc h)) j then false else b)
            (tag_slot-other (suc h) change (some n) i t j u ne))

tree_tags :
    (h : ℕ) (n : Node (Slot h)) (i t j : ℕ)
    → tag_get (replanted h (tag_slot (suc h) (clear_bit 64) (some n) i t)).0 j t ≡ (
        if first_offset (tree h n) i == first_offset (tree h n) j
        then false
        else tag_get (tree h n) j t)
unfolding tag_get first_offset
tree_tags h n i t j =
    rw (tagged_tree-replanted h (clear_bit 64) n i t j t, clear-tagged h n i t j)
      (elim (Bool-cases (index_in_node i h == index_in_node j h)) [
        | inl e ↦ rw e (all_false (leb max_tags t) (ltb (capacity (suc h)) j))
        | inr e ↦ rw e
      ])

-- radix_tree_tag_clear of an index in the range of the tree takes the tag from all indices behind
-- the same slot of the first node, and changes no other tag and no item.
pub tag_clear-Cleared :
    (r : Root) (i t : ℕ)
    → 0 < height r
    → i ≤ capacity (height r)
    → t < max_tags
    → Cleared r i t (tag_clear r i t).0
unfolding tag_clear
tag_clear-Cleared empty i t pos le lt = absurd (omega arith)
tag_clear-Cleared (tree h n) i t pos le lt =
    rw (lt→leb t max_tags lt, le→ltb (capacity (suc h)) i le)
      (record {
        items = λ j. lookup-replanted h (clear_bit 64) n i t j;
        others = λ j u ne. tree_others h (clear_bit 64) n i t j u ne;
        tags = λ j. tree_tags h n i t j;
      })

-- What a success of radix_tree_tag_set gives.
pub record Tagged (r : Root) (i t : ℕ) (r' : Root) : Type 0 where
  pub items : (j : ℕ) → lookup r' j ≡ lookup r j
  pub others : (j u : ℕ) → t ≢ u → tag_get r' j u ≡ tag_get r j u
  pub keeps : (j : ℕ) → tag_get r j t ≡ true → tag_get r' j t ≡ true
  pub tagged : tag_get r' i t ≡ true

tag_get-tree :
    (h : ℕ) (n : Node (Slot h)) (j t : ℕ)
    → tag_get (tree h n) j t ≡ (
        if leb max_tags t
        then false
        else if ltb (capacity (suc h)) j
        then false
        else tagged_slot (suc h) (some n) j t)
unfolding tag_get
tag_get-tree h n j t = refl

keeps_under :
    (a b x y : Bool)
    → (x ≡ true → y ≡ true)
    → (if a then false else if b then false else x) ≡ true
    → (if a then false else if b then false else y) ≡ true
keeps_under false false x y f e = f e
keeps_under false true x y f e = e
keeps_under true b x y f e = e

tree_keeps :
    (h : ℕ) (n : Node (Slot h)) (i t j : ℕ)
    → tag_get (tree h n) j t ≡ true
    → tag_get (replanted h (tag_slot (suc h) set_bit (some n) i t)).0 j t ≡ true
unfolding tag_get
tree_keeps h n i t j e =
    ap (λ b. if leb max_tags t then false else b) (tagged_tree-replanted h set_bit n i t j t)
    ∙ keeps_under (leb max_tags t) (ltb (capacity (suc h)) j) (tagged_slot (suc h) (some n) j t)
        (tagged_slot (suc h) (tag_slot (suc h) set_bit (some n) i t).0 j t)
        (set-keeps (suc h) (some n) i t j) (sym (tag_get-tree h n j t) ∙ e)

result-replanted :
    (h : ℕ) (change : ℕ → ℕ → ℕ) (n : Node (Slot h)) (i t : ℕ)
    → (replanted h (tag_slot (suc h) change (some n) i t)).1
      ≡ (tag_slot (suc h) change (some n) i t).1
unfolding tag_slot
result-replanted h change n i t = refl

tree_tagged :
    (h : ℕ) (n : Node (Slot h)) (i t : ℕ)
    → t < max_tags
    → i ≤ capacity (suc h)
    → (replanted h (tag_slot (suc h) set_bit (some n) i t)).1 ≡ ok 0
    → tag_get (replanted h (tag_slot (suc h) set_bit (some n) i t)).0 i t ≡ true
unfolding tag_get
tree_tagged h n i t lt le e =
    rw
      (
        lt→leb t max_tags lt,
        tagged_tree-replanted h set_bit n i t i t,
        le→ltb (capacity (suc h)) i le,
      )
      (set-tagged (suc h) (some n) i t (sym (result-replanted h set_bit n i t) ∙ e))

in_range_Tagged :
    (h : ℕ) (n : Node (Slot h)) (i t : ℕ) (out : Bool)
    → t < max_tags
    → ltb (capacity (suc h)) i ≡ out
    → (if out
        then (tree h n, fail enoent)
        else replanted h (tag_slot (suc h) set_bit (some n) i t)).1
      ≡ ok 0
    → Tagged
        (tree h n)
        i
        t
        (if out
          then (tree h n, fail enoent)
          else replanted h (tag_slot (suc h) set_bit (some n) i t)).0
in_range_Tagged h n i t true lt far e = ground arith
in_range_Tagged h n i t false lt near e = record {
  items = λ j. lookup-replanted h set_bit n i t j;
  others = λ j u ne. tree_others h set_bit n i t j u ne;
  keeps = λ j. tree_keeps h n i t j;
  tagged = tree_tagged h n i t lt (ltb→le (capacity (suc h)) i near) e;
}

tree_Tagged :
    (r : Root) (i t : ℕ)
    → t < max_tags
    → (tag_tree set_bit r i t).1 ≡ ok 0
    → Tagged r i t (tag_tree set_bit r i t).0
tree_Tagged empty i t lt e = ground arith
tree_Tagged (tree h n) i t lt e = in_range_Tagged h n i t (ltb (capacity (suc h)) i) lt refl e

guarded_Tagged :
    (r : Root) (i t : ℕ) (big : Bool)
    → leb max_tags t ≡ big
    → (if big then (r, fail einval) else tag_tree set_bit r i t).1 ≡ ok 0
    → Tagged r i t (if big then (r, fail einval) else tag_tree set_bit r i t).0
guarded_Tagged r i t true eq e = ground arith
guarded_Tagged r i t false eq e = tree_Tagged r i t (ground arith) e

-- A success of radix_tree_tag_set gives the index the tag; no index loses it, and no other tag and
-- no item changes.
pub tag_set-Tagged :
    (r : Root) (i t : ℕ) → (tag_set r i t).1 ≡ ok 0 → Tagged r i t (tag_set r i t).0
unfolding tag_set
tag_set-Tagged r i t e = guarded_Tagged r i t (leb max_tags t) refl e
