-- ===== src/Util/Radix/Remove/Laws.antt =====
-- What radix_tree_delete takes from the map, where it frees no node and the root has other
-- children.
use oscomp.Common.{
  ℕ, zero, suc, ◌+◌, ◌-◌, ◌%◌, ◌^◌, ◌<◌, ◌==◌, ==_iff, ==_ne, ==_self, ◌&&◌, if◌then◌else◌,
  Bool-cases, Option, none, some, ◌≡◌, ◌≢◌, refl, ap, ◌∙◌, inl, inr, arith,
}
use oscomp.Util.Radix.{Node, Slot, Root, empty, tree, index_in_node, attach, lookup, lookup_slot}
use oscomp.Util.Radix.Index.{Plain, same_path}
use oscomp.Util.Radix.Remove.{
  count_down, keep_node, relink, delete_node, clear_item, is_next_level, shrink,
}

-- The counts on the path: no node is freed when the count of its leaf falls by `falls`.
abbrev pub Kept : (h : ℕ) → ℕ → Slot (suc h) → ℕ → Type 0
Kept h falls none i = ⊥
Kept zero falls (some n) i = (n.count ≢ falls) × (n.count < 2 ^ 32)
Kept (suc h) falls (some n) i = (n.count ≢ 0) × Kept h falls (n.slots (index_in_node i (suc h))) i

-- Without the item at `i`.
abbrev pub Without : (h : ℕ) → Slot h → ℕ → Slot h → Type 0
Without h s i s' =
    (j : ℕ) → lookup_slot h s' j ≡ (if same_path h i j then none else lookup_slot h s j)

attach-Without :
    (h : ℕ) (n : Node (Slot h)) (i : ℕ) (s : Slot h)
    → Without h (n.slots (index_in_node i h)) i s
    → Without (suc h) (some n) i (some (attach n (index_in_node i h) s))
unfolding lookup_slot same_path
attach-Without h n i s w j = elim (Bool-cases (index_in_node i h == index_in_node j h)) [
  | inl e ↦ rw e (
      w j
      ∙ ap (λ o. if same_path h i j then none else lookup_slot h (n.slots o) j)
          ((==_iff (index_in_node i h) (index_in_node j h)).0 e))
  | inr e ↦ rw e
]

-- Another count changes nothing that is found.
count-Without :
    (h : ℕ) (n m : Node (Slot h)) (i c : ℕ)
    → Without (suc h) (some n) i (some m)
    → Without (suc h) (some n) i (some (record m { count = c }))
unfolding lookup_slot
count-Without h n m i c w = w

null-Without : (i : ℕ) (s : Slot 0) → Without 0 s i none
unfolding lookup_slot same_path
null-Without i s j = refl

below-Without :
    (h i : ℕ) (change : Node (Slot h) → Node (Slot h))
    → ((c : Node (Slot h)) → Without (suc h) (some c) i (some (change c)))
    → (s : Slot (suc h)) → Without (suc h) s i (elim s [ none ↦ none | some c ↦ some (change c) ])
unfolding lookup_slot
below-Without h i change w none j = ground arith
below-Without h i change w (some c) j = w c j

pub clear_item-Without :
    (h : ℕ) (n : Node (Slot h)) (i : ℕ) → Without (suc h) (some n) i (some (clear_item h n i))
unfolding clear_item
clear_item-Without zero n i =
    count-Without zero n (attach n (index_in_node i 0) none) i ((n.count + (2 ^ 32 - 1)) % 2 ^ 32)
      (attach-Without zero n i none (null-Without i (n.slots (index_in_node i 0))))
clear_item-Without (suc h) n i = attach-Without (suc h) n i _ (
    below-Without h i (λ c. clear_item h c i) (λ c. clear_item-Without h c i)
      (n.slots (index_in_node i (suc h))))

-- The node stays, without the item, and with its count unless it is the leaf.
abbrev pub Stays : (h : ℕ) → Node (Slot h) → ℕ → Option (Node (Slot h)) → Type 0
Stays h n i r =
    (m : Node (Slot h)) × (r ≡ some m)
    × Without (suc h) (some n) i (some m)
    × ((k : ℕ) → h ≡ suc k → m.count ≡ n.count)

keep_node-some : {X : Type 0} (n : Node X) → n.count ≢ 0 → keep_node n ≡ some n
keep_node-some n ne = rw (==_ne n.count 0 ne)

relink-Stays :
    (h : ℕ) (n : Node (Slot (suc h))) (i : ℕ) (c : Node (Slot h)) (r : Option (Node (Slot h)))
    → n.count ≢ 0
    → n.slots (index_in_node i (suc h)) ≡ some c
    → Stays h c i r
    → Stays (suc h) n i (relink n (index_in_node i (suc h)) r)
relink-Stays h n i c r ne e (m, rm, w, same) = (
  attach n (index_in_node i (suc h)) (some m),
  rw rm (keep_node-some (attach n (index_in_node i (suc h)) (some m)) ne),
  attach-Without (suc h) n i (some m) (rw e w),
  λ k eq. refl,
)

child-Stays :
    (h : ℕ) (n : Node (Slot (suc h))) (i : ℕ) (s : Option (Node (Slot h)))
    → n.count ≢ 0
    → ((c : Node (Slot h)) → Kept h 1 (some c) i → Stays h c i (delete_node h c i))
    → n.slots (index_in_node i (suc h)) ≡ s
    → Kept h 1 s i
    → Stays
        (suc h)
        n
        i
        (relink n (index_in_node i (suc h)) (elim s [ none ↦ none | some c ↦ delete_node h c i ]))
child-Stays h n i none ne ih e k = absurd k
child-Stays h n i (some c) ne ih e k = relink-Stays h n i c (delete_node h c i) ne e (ih c k)

pub delete_node-Stays :
    (h : ℕ) (n : Node (Slot h)) (i : ℕ) → Kept h 1 (some n) i → Stays h n i (delete_node h n i)
unfolding delete_node
delete_node-Stays zero n i (ne, lt) = (
  count_down (attach n (index_in_node i 0) none),
  keep_node-some (count_down (attach n (index_in_node i 0) none)) (λ e. omega arith),
  count-Without zero n (attach n (index_in_node i 0) none) i ((n.count + (2 ^ 32 - 1)) % 2 ^ 32)
      (attach-Without zero n i none (null-Without i (n.slots (index_in_node i 0)))),
  λ k e. absurd (omega arith),
)
delete_node-Stays (suc h) n i (ne, kept) =
    child-Stays h n i (n.slots (index_in_node i (suc h))) ne (λ c. delete_node-Stays h c i) refl
      kept

pub Kept-clear_item :
    (h : ℕ) (n : Node (Slot h)) (i : ℕ) → Kept h 2 (some n) i → Kept h 1 (some (clear_item h n i)) i
unfolding clear_item
Kept-clear_item zero n i (ne, lt) = (λ e. omega arith, omega arith)
Kept-clear_item (suc h) n i (ne, kept) = (
  ne,
  rw (==_self (index_in_node i (suc h)))
      (cleared (n.slots (index_in_node i (suc h))) (λ c. Kept-clear_item h c i) kept),
)
  where
    cleared :
        (s : Option (Node (Slot h)))
        → ((c : Node (Slot h)) → Kept h 2 (some c) i → Kept h 1 (some (clear_item h c i)) i)
        → Kept h 2 s i
        → Kept h 1 (elim s [ none ↦ none | some c ↦ some (clear_item h c i) ]) i
    cleared none ih k = absurd k
    cleared (some c) ih k = ih c k

pub count-clear_item :
    (h : ℕ) (n : Node (Slot (suc h))) (i : ℕ) → (clear_item (suc h) n i).count ≡ n.count
unfolding clear_item
count-clear_item h n i = refl

pub shrink_wide :
    (h : ℕ) (n : Node (Slot (suc h))) → n.count ≢ 1 → shrink (suc h) n ≡ tree (suc h) n
unfolding shrink
shrink_wide h n ne = stays (n.slots 0)
  where
    stays :
        (s : Option (Node (Slot h)))
        → elim s [
          | none ↦ tree (suc h) n
          | some c ↦
              let lower = shrink h c in
              if (n.count == 1) && is_next_level c.level n.level then lower else tree (suc h) n
        ]
          ≡ tree (suc h) n
    stays none = refl
    stays (some c) = rw (==_ne n.count 1 ne)

-- No node is freed and the height stays: the counts of the nodes on the way to an item.
abbrev pub Deletable : Root → ℕ → Option ℕ → Type 0
Deletable r i none = Unit
Deletable empty i (some item) = Unit
Deletable (tree zero n) i (some item) = (n.count ≢ 1) × (n.count < 2 ^ 32)
Deletable (tree (suc h) n) i (some item) = (n.count ≢ 1) × Kept (suc h) 2 (some n) i

-- The item at `i` is returned, and the map loses it alone.
abbrev pub Deleted : Root → ℕ → Option (Root × Option ℕ) → Type 0
Deleted r i res =
    (r' : Root) × (res ≡ some (r', lookup r i))
    × ((j : ℕ) → Plain j → lookup r' j ≡ (if i == j then none else lookup r j))
