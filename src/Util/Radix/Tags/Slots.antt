-- ===== src/Util/Radix/Tags/Slots.antt =====
-- What a change of a tag does below a slot.
use oscomp.Common.{
  ℕ, zero, suc, ◌==◌, ==_iff, ==_ne, ==_self, Bool, true, false, if◌then◌else◌, Bool-cases, none,
  some, ◌≡◌, ◌≢◌, refl, ap, ◌∙◌, inl, inr, arith,
}
use oscomp.Common.Bits.{set_bit, clear_bit, test_bit, test_bit-set_bit, test_bit-clear_bit}
use oscomp.Common.Errno.{ok}
use oscomp.Util.Radix.{Node, Slot, index_in_node, lookup_slot}
use oscomp.Util.Radix.Index.{index_in_node-lt}
use oscomp.Util.Radix.Tags.{tag_slot, tagged_slot}

-- A change keeps the items.
pub tag_slot-lookup :
    (h : ℕ) (change : ℕ → ℕ → ℕ) (s : Slot h) (i t j : ℕ)
    → lookup_slot h (tag_slot h change s i t).0 j ≡ lookup_slot h s j
unfolding tag_slot lookup_slot
tag_slot-lookup zero change s i t j = refl
tag_slot-lookup (suc h) change none i t j = refl
tag_slot-lookup (suc h) change (some n) i t j =
    elim (Bool-cases (index_in_node i h == index_in_node j h)) [
      | inl e ↦ rw e (
          tag_slot-lookup h change (n.slots (index_in_node i h)) i t j
          ∙ ap (λ o. lookup_slot h (n.slots o) j)
              ((==_iff (index_in_node i h) (index_in_node j h)).0 e))
      | inr e ↦ rw e
    ]

-- It keeps the other tags.
pub tag_slot-other :
    (h : ℕ) (change : ℕ → ℕ → ℕ) (s : Slot h) (i t j u : ℕ)
    → t ≢ u
    → tagged_slot h (tag_slot h change s i t).0 j u ≡ tagged_slot h s j u
unfolding tag_slot tagged_slot
tag_slot-other zero change s i t j u ne = refl
tag_slot-other (suc h) change none i t j u ne = refl
tag_slot-other (suc h) change (some n) i t j u ne =
    elim (Bool-cases (index_in_node i h == index_in_node j h)) [
      | inl e ↦
          rw (==_ne t u ne, e, tag_slot-other h change (n.slots (index_in_node i h)) i t j u ne)
            (ap
              (λ o.
                if test_bit (n.tags u) (index_in_node j h)
                then tagged_slot h (n.slots o) j u
                else false)
              ((==_iff (index_in_node i h) (index_in_node j h)).0 e))
      | inr e ↦ rw (==_ne t u ne, e)
    ]

-- Clearing: the bit of the first node decides.
pub clear-tagged :
    (h : ℕ) (n : Node (Slot h)) (i t j : ℕ)
    → tagged_slot (suc h) (tag_slot (suc h) (clear_bit 64) (some n) i t).0 j t
      ≡ (if index_in_node i h == index_in_node j h then false else tagged_slot (suc h) (some n) j t)
unfolding tag_slot tagged_slot
clear-tagged h n i t j =
    rw
      (
        ==_self t,
        test_bit-clear_bit 64 (n.tags t) (index_in_node i h) (index_in_node j h)
            (index_in_node-lt i h) (index_in_node-lt j h),
      )
      (elim (Bool-cases (index_in_node i h == index_in_node j h)) [ inl e ↦ rw e | inr e ↦ rw e ])

-- Setting: the index has the tag if the walk reaches it.
pub set-tagged :
    (h : ℕ) (s : Slot h) (i t : ℕ)
    → (tag_slot h set_bit s i t).1 ≡ ok 0
    → tagged_slot h (tag_slot h set_bit s i t).0 i t ≡ true
unfolding tag_slot tagged_slot
set-tagged zero s i t e = refl
set-tagged (suc h) none i t e = ground arith
set-tagged (suc h) (some n) i t e =
    rw
      (
        ==_self t,
        test_bit-set_bit (n.tags t) (index_in_node i h) (index_in_node i h),
        ==_self (index_in_node i h),
      )
      (set-tagged h (n.slots (index_in_node i h)) i t e)

pub all_false : (b c : Bool) → (if b then false else if c then false else false) ≡ false
all_false b c = ground arith

both_true : (b x : Bool) → (if b then x else false) ≡ true → (b ≡ true) × (x ≡ true)
both_true b x e = ground arith

-- What had the tag keeps it.
pub set-keeps :
    (h : ℕ) (s : Slot h) (i t j : ℕ)
    → tagged_slot h s j t ≡ true
    → tagged_slot h (tag_slot h set_bit s i t).0 j t ≡ true
unfolding tag_slot tagged_slot
set-keeps zero s i t j e = refl
set-keeps (suc h) none i t j e = e
set-keeps (suc h) (some n) i t j e =
    let (bit, below) =
      both_true (test_bit (n.tags t) (index_in_node j h))
        (tagged_slot h (n.slots (index_in_node j h)) j t) e in
    rw (==_self t, test_bit-set_bit (n.tags t) (index_in_node i h) (index_in_node j h))
      (elim (Bool-cases (index_in_node i h == index_in_node j h)) [
        | inl same ↦ rw same (
            set-keeps h (n.slots (index_in_node i h)) i t j (
              ap (λ o. tagged_slot h (n.slots o) j t)
                ((==_iff (index_in_node i h) (index_in_node j h)).0 same)
              ∙ below))
        | inr differ ↦ rw (differ, bit) below
      ])
