-- ===== src/Util/Hashtable/Chain.antt =====
-- The lists of nodes: how often a key stands in one, and what the search finds.
use oscomp.Common.{
  ℕ, ◌+◌, ◌≤◌, Bool, true, false, if◌then◌else◌, none, List, [], ◌∷◌, ◌≡◌, refl, ap, arith,
}
use oscomp.Util.Hashtable.{Keys, find_node, remove_node}

abbrev pub to_nat : Bool → ℕ
to_nat true = 1
to_nat false = 0

module _ {K N : Type 0} (h : Keys K N) where
  unfoldable pub count : List N → K → ℕ
  count [] q = 0
  count (n ∷ l) q = to_nat (h.key_equals (h.get_key n) q) + count l q

  pub key_equals_congr : (a b q : K) → h.key_equals a b ≡ true → h.key_equals a q ≡ h.key_equals b q
  key_equals_congr a b q e = ap (λ x. h.key_equals x q) ((h.key_equals_iff a b).0 e)

  pub key_equals_congr_right :
      (a b q : K) → h.key_equals a b ≡ true → h.key_equals q a ≡ h.key_equals q b
  key_equals_congr_right a b q e = ap (h.key_equals q) ((h.key_equals_iff a b).0 e)

  pub find_node-none : (l : List N) (q : K) → count l q ≡ 0 → find_node h l q ≡ none
  unfolding count find_node
  find_node-none [] q e = refl
  find_node-none (n ∷ l) q e = ground (arith, find_node-none l q)

  pub count-none : (l : List N) (q : K) → find_node h l q ≡ none → count l q ≡ 0
  unfolding count find_node
  count-none [] q e = refl
  count-none (n ∷ l) q e = ground (arith, count-none l q)

  pub count-congr : (l : List N) (a b : K) → h.key_equals a b ≡ true → count l a ≡ count l b
  count-congr l a b e = ap (count l) ((h.key_equals_iff a b).0 e)

  pub find_node-remove_node :
      (l : List N) (k q : K)
      → count l q ≤ 1
      → find_node h (remove_node h l k) q ≡ (if h.key_equals k q then none else find_node h l q)
  unfolding count find_node remove_node
  find_node-remove_node [] k q le = ground arith
  find_node-remove_node (n ∷ l) k q le = ground (
    arith,
    find_node-remove_node l k q,
    find_node-none l q,
    key_equals_congr (h.get_key n) k q,
    key_equals_congr_right k q (h.get_key n),
  )

  pub count-remove_node : (l : List N) (k q : K) → count (remove_node h l k) q ≤ count l q
  unfolding count remove_node
  count-remove_node [] k q = omega arith
  count-remove_node (n ∷ l) k q = ground (arith, count-remove_node l k q)
