-- ===== src/Util/Radix/Insert/Extend.antt =====
-- New levels keep every item where it is found, unless its index is a power of 64.
use oscomp.Common.{
  ℕ, zero, suc, ◌+◌, ◌-◌, ◌≤◌, ◌<◌, ◌==◌, ◌≡◌, ◌≢◌, ◌⊎◌, inl, inr, ◌∙◌, sym, refl, Option, none,
  some, Bool-cases, ltb, ltb→lt, ltb→le, lt→ltb, le→ltb, if◌then◌else◌, ==_ne, arith,
}
use oscomp.Common.Errno.{Ret, ok, fail, einval, enomem}
use oscomp.Util.Radix.{
  Node, Slot, Root, empty, tree, height, capacity, max_height, lookup, lookup_slot, extend,
  extend_to, needed_height, add_level, add_levels, index_in_node,
}
use oscomp.Util.Radix.Index.{
  Plain, capacity-suc, capacity_pos, index_in_node_below, index_in_node_above,
}

-- The same map.
abbrev pub Same : Root → Root → Type 0
Same r r' = (j : ℕ) → Plain j → lookup r' j ≡ lookup r j

past : (h : ℕ) (n : Node (Slot h)) (j : ℕ) → capacity (suc h) < j → lookup (tree h n) j ≡ none
unfolding lookup
past h n j lt = rw (lt→ltb _ _ lt)

within :
    (h : ℕ) (n : Node (Slot h)) (j : ℕ)
    → j ≤ capacity (suc h)
    → lookup (tree h n) j ≡ lookup_slot (suc h) (some n) j
unfolding lookup
within h n j le = rw (le→ltb _ _ le)

new_level :
    (h : ℕ) (n : Node (Slot h)) (j : ℕ)
    → j ≤ capacity (suc (suc h))
    → lookup (add_level (tree h n)) j
      ≡ lookup_slot (suc h) (if 0 == index_in_node j (suc h) then some n else none) j
unfolding lookup add_level lookup_slot
new_level h n j le = rw (le→ltb _ _ le)

past_new_level :
    (h : ℕ) (n : Node (Slot h)) (j : ℕ)
    → capacity (suc (suc h)) < j
    → lookup (add_level (tree h n)) j ≡ none
unfolding add_level
past_new_level h n j lt = past (suc h) _ j lt

first_slot :
    (h : ℕ) (n : Node (Slot h)) (j : ℕ)
    → j ≤ capacity (suc (suc h))
    → Plain j
    → lookup (add_level (tree h n)) j ≡ lookup (tree h n) j
unfolding lookup_slot
first_slot h n j le p = elim (Bool-cases (ltb (capacity (suc h)) j)) [
  | inl above ↦
      let ne : 0 ≢ index_in_node j (suc h) = λ e.
        index_in_node_above (suc h) j (omega (arith, ltb→lt _ _ above))
          (omega (arith, p (suc (suc h)))) (sym e) in
      new_level h n j le ∙ rw (==_ne _ _ ne) (sym (past h n j (ltb→lt _ _ above)))
  | inr below ↦
      let zero_digit = index_in_node_below (suc h) j (omega (arith, ltb→le _ _ below, p (suc h))) in
      new_level h n j le ∙ rw zero_digit (sym (within h n j (ltb→le _ _ below)))
]

add_level-Same : (r : Root) → Same r (add_level r)
unfolding lookup add_level lookup_slot
add_level-Same empty j p = ground arith
add_level-Same (tree h n) j p = elim (Bool-cases (ltb (capacity (suc (suc h))) j)) [
  | inl t ↦
      let lt = ltb→lt _ _ t in
      past_new_level h n j lt
      ∙ sym (past h n j (omega (arith, capacity-suc (suc h), capacity_pos (suc h))))
  | inr t ↦ first_slot h n j (ltb→le _ _ t) p
]

height-add_level : (r : Root) → height (add_level r) ≡ suc (height r)
unfolding add_level
height-add_level empty = refl
height-add_level (tree h n) = refl

-- `b` is the budget at the start.
abbrev Added : Root → ℕ → ℕ → Root × ℕ × Ret → Type 0
Added r n b (r', budget, ok k) = Same r r' × (height r' ≡ height r + n) × (b ≡ budget + n)
Added r n b (r', budget, fail e) = Same r r' × (e ≡ enomem) × (height r' ≤ height r + n) × (b < n)

Added-add_level :
    (r : Root) (n b : ℕ) (p : Root × ℕ × Ret)
    → Added (add_level r) n b p
    → Added r (suc n) (suc b) p
Added-add_level r n b (r', budget, ok k) (s, e, spent) =
    (λ j p. s j p ∙ add_level-Same r j p, omega (arith, height-add_level r), omega arith)
Added-add_level r n b (r', budget, fail x) (s, e, le, few) =
    (λ j p. s j p ∙ add_level-Same r j p, e, omega (arith, height-add_level r), omega arith)

add_levels-Added : (n : ℕ) (r : Root) (budget : ℕ) → Added r n budget (add_levels n r budget)
unfolding add_levels
add_levels-Added zero r budget = (λ j p. refl, omega arith, omega arith)
add_levels-Added (suc n) r zero = (λ j p. refl, refl, omega arith, omega arith)
add_levels-Added (suc n) r (suc budget) =
    Added-add_level r n budget (add_levels n (add_level r) budget)
      (add_levels-Added n (add_level r) budget)

-- The height that the loop stops at holds the index; the loop gives up above the greatest.
abbrev Needed : ℕ → ℕ → ℕ → Option ℕ → Type 0
Needed rounds h i none = capacity (h + rounds) < i
Needed rounds h i (some k) = (h ≤ k) × (k ≤ h + rounds) × (i ≤ capacity k)

Needed-suc : (rounds h i : ℕ) (r : Option ℕ) → Needed rounds (h + 1) i r → Needed (suc rounds) h i r
Needed-suc rounds h i none n =
    let same : h + 1 + rounds ≡ h + suc rounds = omega arith in rw (← same) n
Needed-suc rounds h i (some k) (a, c, b) = (omega arith, omega arith, b)

needed_height-Needed : (rounds h i : ℕ) → Needed rounds h i (needed_height rounds h i)
unfolding needed_height
needed_height-Needed zero h i = elim (Bool-cases (ltb (capacity h) i)) [
  | inl t ↦ let same : h + 0 ≡ h = omega arith in rw (t, same) (ltb→lt _ _ t)
  | inr t ↦ rw t (omega arith, omega arith, ltb→le _ _ t)
]
needed_height-Needed (suc rounds) h i = elim (Bool-cases (ltb (capacity h) i)) [
  | inl t ↦ rw t (
      Needed-suc rounds h i (needed_height rounds (h + 1) i)
        (needed_height-Needed rounds (h + 1) i))
  | inr t ↦ rw t (omega arith, omega arith, ltb→le _ _ t)
]

abbrev pub Extended : Root → ℕ → ℕ → Root × ℕ × Ret → Type 0
Extended r i b (r', budget, ok k) =
    Same r r'
    × (height r' ≤ max_height)
    × (i ≤ capacity (height r'))
    × (height r ≤ height r')
    × (b ≤ budget + max_height)
Extended r i b (r', budget, fail e) =
    Same r r'
    × (height r' ≤ max_height)
    × (((e ≡ einval) × (capacity max_height < i)) ⊎ ((e ≡ enomem) × (b < max_height)))

Extended-Added :
    (r : Root) (i b k : ℕ) (p : Root × ℕ × Ret)
    → height r ≤ k
    → k ≤ max_height
    → i ≤ capacity k
    → Added r (k - height r) b p
    → Extended r i b p
Extended-Added r i b k (r', budget, ok z) le top fits (s, e, spent) =
    let same : height r' ≡ k = omega arith in
    (s, omega arith, rw same fits, omega arith, omega arith)
Extended-Added r i b k (r', budget, fail x) le top fits (s, e, up, few) =
    (s, omega arith, inr (e, omega arith))

extend_to-Extended :
    (r : Root) (budget i : ℕ) (k : Option ℕ)
    → height r ≤ max_height
    → Needed (max_height - height r) (height r) i k
    → Extended r i budget (extend_to r budget k)
extend_to-Extended r budget i none le n =
    let same : height r + (4 - height r) ≡ 4 = omega arith in
    (λ j p. refl, le, inl (refl, rw (← same) n))
extend_to-Extended r budget i (some k) le (a, c, b) =
    Extended-Added r i budget k (add_levels (k - height r) r budget) a (omega arith) b
      (add_levels-Added (k - height r) r budget)

pub extend-Extended :
    (r : Root) (budget i : ℕ) → height r ≤ max_height → Extended r i budget (extend r budget i)
unfolding extend
extend-Extended r budget i le =
    extend_to-Extended r budget i (needed_height (max_height - height r) (height r) i) le
      (needed_height-Needed (max_height - height r) (height r) i)
