-- ===== src/Util/Radix/Paths.antt =====
-- The descent keeps every item where it is found, and leads to the slot of its index.
use oscomp.Common.{
  ◌<◌, ◌≤◌, arith, ℕ, zero, suc, ◌%◌, ◌+◌, ◌^◌, ◌==◌, ◌≡◌, ◌∙◌, ap, refl, Bool, true, ◌&&◌, Option,
  none, some, if◌then◌else◌, arith, Bool-cases, ==_iff, ==_self, inl, inr,
}
use oscomp.Common.Errno.{Ret, ok, fail, enomem}
use oscomp.Util.Radix.{
  Node, Slot, null_slot, index_in_node, lookup_slot, attach, attached, child_alloc, descend,
  grow_path, store_slot,
}
use oscomp.Util.Radix.Index.{same_path}

-- Every node on the way to the slot of `i` is there.
abbrev pub Reaches : (h : ℕ) → Slot h → ℕ → Type 0
Reaches zero s i = Unit
Reaches (suc h) none i = ⊥
Reaches (suc h) (some n) i = Reaches h (n.slots (index_in_node i h)) i

pub lookup_slot-null : (h j : ℕ) → lookup_slot h (null_slot h) j ≡ none
unfolding lookup_slot
lookup_slot-null zero j = refl
lookup_slot-null (suc h) j = refl

lookup_slot-child_alloc : (h j : ℕ) → lookup_slot (suc h) (some (child_alloc h)) j ≡ none
unfolding lookup_slot
lookup_slot-child_alloc h j = lookup_slot-null h j

pub lookup_slot-attach :
    (h : ℕ) (n : Node (Slot h)) (o : ℕ) (s : Slot h) (j : ℕ)
    → lookup_slot (suc h) (some (attach n o s)) j
      ≡ (if o == index_in_node j h then lookup_slot h s j else lookup_slot (suc h) (some n) j)
unfolding lookup_slot
lookup_slot-attach h n o s j = elim (Bool-cases (o == index_in_node j h)) [
  | inl e ↦ rw e
  | inr e ↦ rw e
]

attach_same :
    (h : ℕ) (n : Node (Slot h)) (o : ℕ) (s : Slot h) (j : ℕ)
    → lookup_slot h s j ≡ lookup_slot h (n.slots o) j
    → lookup_slot (suc h) (some (attach n o s)) j ≡ lookup_slot (suc h) (some n) j
unfolding lookup_slot
attach_same h n o s j same = elim (Bool-cases (o == index_in_node j h)) [
  | inl e ↦
      rw e (same ∙ ap (λ o'. lookup_slot h (n.slots o') j) ((==_iff o (index_in_node j h)).0 e))
  | inr e ↦ rw e
]

Reaches-attach :
    (h : ℕ) (n : Node (Slot h)) (i : ℕ) (s : Slot h)
    → Reaches h s i
    → Reaches (suc h) (some (attach n (index_in_node i h) s)) i
Reaches-attach h n i s r = rw (==_self (index_in_node i h)) r

module _ (h : ℕ) (next : Node (Slot h) → ℕ → Node (Slot h) × ℕ × Ret) (j : ℕ)
    (keeps : (c : Node (Slot h)) (budget : ℕ)
      → lookup_slot (suc h) (some (next c budget).0) j ≡ lookup_slot (suc h) (some c) j) where
  descend-lookup :
      (n : Node (Slot (suc h))) (o : ℕ) (s : Option (Node (Slot h))) (budget : ℕ)
      → n.slots o ≡ s
      → lookup_slot (suc (suc h)) (some (descend h next n o s budget).0) j
        ≡ lookup_slot (suc (suc h)) (some n) j
  unfolding lookup_slot
  descend-lookup n o none zero e = refl
  descend-lookup n o none (suc budget) e =
      attach_same (suc h) n o (some (next (child_alloc h) budget).0) j
        (rw e (keeps (child_alloc h) budget ∙ lookup_slot-child_alloc h j))
  descend-lookup n o (some c) budget e =
      attach_same (suc h) n o (some (next c budget).0) j (rw e (keeps c budget))

pub grow_path-lookup :
    (h : ℕ) (n : Node (Slot h)) (budget i j : ℕ)
    → lookup_slot (suc h) (some (grow_path h n budget i).0) j ≡ lookup_slot (suc h) (some n) j
unfolding grow_path
grow_path-lookup zero n budget i j = refl
grow_path-lookup (suc h) n budget i j =
    descend-lookup h (λ c rest. grow_path h c rest i) j (λ c rest. grow_path-lookup h c rest i j) n
      (index_in_node i (suc h)) (n.slots (index_in_node i (suc h))) budget refl

-- What the descent returns: the slot, or the failure of an allocation.
abbrev pub Grown : (h : ℕ) → ℕ → ℕ → Node (Slot h) × ℕ × Ret → Type 0
Grown h i b (n, budget, ok k) = Reaches (suc h) (some n) i
Grown h i b (n, budget, fail e) = (e ≡ enomem) × (b < h)

Grown-attached :
    (h : ℕ) (n : Node (Slot (suc h))) (i b b' : ℕ) (r : Node (Slot h) × ℕ × Ret)
    → b' ≤ suc b
    → Grown h i b r
    → Grown (suc h) i b' (attached n (index_in_node i (suc h)) r)
Grown-attached h n i b b' (c, budget, ok k) le g = Reaches-attach (suc h) n i (some c) g
Grown-attached h n i b b' (c, budget, fail e) le (e', few) = (e', omega arith)

descend-Grown :
    (h : ℕ) (next : Node (Slot h) → ℕ → Node (Slot h) × ℕ × Ret) (i : ℕ)
    → ((c : Node (Slot h)) (budget : ℕ) → Grown h i budget (next c budget))
    → (n : Node (Slot (suc h))) (s : Option (Node (Slot h))) (budget : ℕ)
    → Grown (suc h) i budget (descend h next n (index_in_node i (suc h)) s budget)
descend-Grown h next i g n none zero = (refl, omega arith)
descend-Grown h next i g n none (suc budget) =
    Grown-attached h (record n { count = (n.count + 1) % 2 ^ 32 }) i budget (suc budget)
      (next (child_alloc h) budget) (omega arith) (g (child_alloc h) budget)
descend-Grown h next i g n (some c) budget =
    Grown-attached h n i budget budget (next c budget) (omega arith) (g c budget)

pub grow_path-Grown :
    (h : ℕ) (n : Node (Slot h)) (budget i : ℕ) → Grown h i budget (grow_path h n budget i)
unfolding grow_path
grow_path-Grown zero n budget i = tt
grow_path-Grown (suc h) n budget i =
    descend-Grown h (λ c rest. grow_path h c rest i) i (λ c rest. grow_path-Grown h c rest i) n
      (n.slots (index_in_node i (suc h))) budget

-- A store through that slot changes what is found at the index, and nothing else.
pub lookup_slot-store_slot :
    (h : ℕ) (s : Slot h) (i j item : ℕ)
    → Reaches h s i
    → lookup_slot h (store_slot h s i item) j
      ≡ (if same_path h i j then some item else lookup_slot h s j)
unfolding lookup_slot store_slot same_path
lookup_slot-store_slot zero s i j item r = refl
lookup_slot-store_slot (suc h) none i j item r = absurd r
lookup_slot-store_slot (suc h) (some n) i j item r =
    elim (Bool-cases (index_in_node i h == index_in_node j h)) [
      | inl e ↦ rw e (
          lookup_slot-store_slot h (n.slots (index_in_node i h)) i j item r
          ∙ ap (λ o. if same_path h i j then some item else lookup_slot h (n.slots o) j)
              ((==_iff (index_in_node i h) (index_in_node j h)).0 e))
      | inr e ↦ rw e
    ]

both : (a b : ℕ) (x : Bool) → ((a == b) && x) ≡ true → (a ≡ b) × (x ≡ true)
both a b x e = ground arith

-- Only the lower digits lead on from a slot.
pub lookup_slot-same_path :
    (h : ℕ) (s : Slot h) (i j : ℕ) → same_path h i j ≡ true → lookup_slot h s i ≡ lookup_slot h s j
unfolding lookup_slot same_path
lookup_slot-same_path zero s i j e = refl
lookup_slot-same_path (suc h) none i j e = refl
lookup_slot-same_path (suc h) (some n) i j e =
    let (here, below) = both (index_in_node i h) (index_in_node j h) (same_path h i j) e in
    rw here (lookup_slot-same_path h (n.slots (index_in_node j h)) i j below)
