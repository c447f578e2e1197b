-- ===== src/Util/Radix/Index.antt =====
-- The digits of an index to base 64, one for each level.
use oscomp.Common.{
  ℕ, zero, suc, ◌+◌, ◌*◌, ◌/◌, ◌%◌, ◌≤◌, ◌<◌, ◌==◌, ◌≡◌, ◌≢◌, ◌∙◌, ap, sym, Bool, true, ◌&&◌, arith,
  Bool-cases, ==_iff, ==_ne, inl, inr,
}
use native.Mathlib.Nat.{
  pow-suc, mod-add-div, mod-eq_of_lt, mul-add-mod_self_left, mul-add-div, div-eq_of_lt, mod-lt,
  div-lt_iff_lt-mul, le-div_iff_mul-le, mod-one,
}
use oscomp.Util.Radix.{capacity, index_in_node}

pub capacity-suc : (h : ℕ) → capacity (suc h) ≡ capacity h * 64
unfolding capacity
capacity-suc h =
    let k = h * 6 in
    let s : suc h * 6 ≡ suc (suc (suc (suc (suc (suc k))))) = omega arith in
    rw s (
      omega (
        arith,
        pow-suc 2 k,
        pow-suc 2 (k + 1),
        pow-suc 2 (k + 2),
        pow-suc 2 (k + 3),
        pow-suc 2 (k + 4),
        pow-suc 2 (k + 5),
      ))

pub capacity_pos : (h : ℕ) → 0 < capacity h
unfolding capacity
capacity_pos zero = omega arith
capacity_pos (suc h) = omega (arith, capacity-suc h, capacity_pos h)

pub index_in_node-lt : (index h : ℕ) → index_in_node index h < 64
unfolding index_in_node
index_in_node-lt index h = omega arith

-- Two indices go the same way through `h` levels.
unfoldable pub same_path : ℕ → ℕ → ℕ → Bool
same_path zero i j = true
same_path (suc h) i j = (index_in_node i h == index_in_node j h) && same_path h i j

regroup : (p a b r : ℕ) → r + p * (b + 64 * a) ≡ p * 64 * a + (p * b + r)
regroup p a b r = grind arith

-- The upper digit and the rest.
mod_split : (p i : ℕ) → 0 < p → i % (p * 64) ≡ p * (i / p % 64) + i % p
mod_split p i h =
    let q = i / p in
    let lt : p * (q % 64) + i % p < p * 64 = grind (arith, mod-lt i h) in
    let parts : i ≡ p * 64 * (q / 64) + (p * (q % 64) + i % p) =
      sym (mod-add-div i p)
      ∙ ap (λ t. i % p + p * t) (sym (mod-add-div q 64))
      ∙ regroup p (q / 64) (q % 64) (i % p) in
    ap (λ t. t % (p * 64)) parts
    ∙ mul-add-mod_self_left (p * 64) (q / 64) (p * (q % 64) + i % p)
    ∙ mod-eq_of_lt lt

upper : (p a r : ℕ) → r < p → (p * a + r) / p ≡ a
upper p a r h = omega (arith, mul-add-div {m = p} (omega arith) a r, div-eq_of_lt h)

split_unique :
    (p a r b s : ℕ) → r < p → s < p → ((p * a + r) == (p * b + s)) ≡ ((a == b) && (r == s))
split_unique p a r b s h g = elim (Bool-cases (a == b)) [
  | inl e ↦ let same = (==_iff a b).0 e in rw same (ground arith)
  | inr e ↦ rw e (
      ==_ne _ _ (λ (eq : p * a + r ≡ p * b + s).
        ground (arith, sym (upper p a r h) ∙ ap (λ t. t / p) eq ∙ upper p b s g)))
]

pub same_path-mod : (h i j : ℕ) → same_path h i j ≡ (i % capacity h == j % capacity h)
unfolding same_path index_in_node
same_path-mod zero i j = ground (arith, mod-one i, mod-one j)
same_path-mod (suc h) i j = rw (
  capacity-suc h,
  mod_split (capacity h) i (capacity_pos h),
  mod_split (capacity h) j (capacity_pos h),
  split_unique (capacity h) (i / capacity h % 64) (i % capacity h) (j / capacity h % 64)
      (j % capacity h) (mod-lt i (capacity_pos h)) (mod-lt j (capacity_pos h)),
  same_path-mod h i j,
)

-- Below the capacity only the index itself goes its way.
pub same_path-eq : (h i j : ℕ) → i < capacity h → j < capacity h → same_path h i j ≡ (i == j)
same_path-eq h i j lt lt' = rw (same_path-mod h i j, mod-eq_of_lt lt, mod-eq_of_lt lt')

-- A new level is entered by its first slot, exactly by the indices of the old tree.
pub index_in_node_below : (h i : ℕ) → i < capacity h → index_in_node i h ≡ 0
unfolding index_in_node
index_in_node_below h i lt = rw (div-eq_of_lt lt)

pub index_in_node_above : (h i : ℕ) → capacity h ≤ i → i < capacity (suc h) → index_in_node i h ≢ 0
unfolding index_in_node
index_in_node_above h i le lt e =
    let q : i / capacity h < 64 =
      (div-lt_iff_lt-mul {k = capacity h} {x = i} {y = 64} (capacity_pos h)).1
        (omega (arith, capacity-suc h)) in
    let p : 1 ≤ i / capacity h = (le-div_iff_mul-le (capacity_pos h)).1 (omega arith) in omega arith

-- The powers of 64 pass the test of the height below theirs, where they lead to the first slot.
abbrev pub Plain : ℕ → Type 0
Plain i = (k : ℕ) → i ≢ capacity k
