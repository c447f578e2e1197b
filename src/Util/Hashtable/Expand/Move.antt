-- ===== src/Util/Hashtable/Expand/Move.antt =====
-- The loops of hashtable_try_expand over the nodes of a bucket and over the buckets.
use oscomp.Common.{
  ℕ, ◌+◌, ◌≤◌, ◌==◌, ==_iff, ==_self, Bool, true, false, if◌then◌else◌, Bool-cases, List, [], ◌∷◌,
  ◌≡◌, refl, ap, ◌∙◌, inl, inr, arith,
}
use oscomp.Util.Hashtable.{Keys, find_node, new_index, move_nodes, with_bucket}
use oscomp.Util.Hashtable.Chain.{to_nat, count, find_node-none}

front_count :
    (d dq c : ℕ) (e : Bool)
    → (e ≡ true → d ≡ dq)
    → to_nat e + c ≡ c + (if d == dq then to_nat e else 0)
front_count d dq c true f = ground (arith, f refl)
front_count d dq c false f = ground arith

behind_count :
    (d dq j c : ℕ) (e : Bool)
    → (d == j) ≡ false
    → (e ≡ true → d ≡ dq)
    → c ≡ c + (if j == dq then to_nat e else 0)
behind_count d dq j c true ne f = ground (arith, f refl)
behind_count d dq j c false ne f = ground arith

zero_false : (e : Bool) (c : ℕ) → to_nat e + c ≡ 0 → e ≡ false
zero_false true c z = absurd (omega arith)
zero_false false c z = refl

count_rest : (e : Bool) (c : ℕ) → e ≡ true → to_nat e + c ≤ 1 → c ≡ 0
count_rest e c t le = ground arith

module _ {K N : Type 0} (h : Keys K N) where
  module _ (size i : ℕ) where
    new_index-congr :
        (a b : K) → h.key_equals a b ≡ true → new_index h size i a ≡ new_index h size i b
    new_index-congr a b e = ap (new_index h size i) ((h.key_equals_iff a b).0 e)

    count-front :
        (b : ℕ → List N) (n : N) (q : K) (j : ℕ)
        → count h
            (with_bucket b
              (new_index h size i (h.get_key n))
              (n ∷ b (new_index h size i (h.get_key n)))
              j)
            q
          ≡ count h (b j) q
            + (if j == new_index h size i q then to_nat (h.key_equals (h.get_key n) q) else 0)
    unfolding count
    count-front b n q j =
        let d = new_index h size i (h.get_key n) in
        let dq = new_index h size i q in
        let e = h.key_equals (h.get_key n) q in
        elim (Bool-cases (d == j)) [
          | inl here ↦
              let same = (==_iff d j).0 here in
              rw (here, ← same)
                (front_count d dq (count h (b d) q) e (new_index-congr (h.get_key n) q))
          | inr there ↦
              rw there
                (behind_count d dq j (count h (b j) q) e there (new_index-congr (h.get_key n) q))
        ]

    pub count-move_nodes :
        (l : List N) (b : ℕ → List N) (q : K) (j : ℕ)
        → count h (move_nodes h size i l b j) q
          ≡ count h (b j) q + (if j == new_index h size i q then count h l q else 0)
    unfolding move_nodes count
    count-move_nodes [] b q j = ground arith
    count-move_nodes (n ∷ l) b q j = ground (
      arith,
      count-move_nodes l
          (with_bucket b (new_index h size i (h.get_key n))
            (n ∷ b (new_index h size i (h.get_key n))))
          q j,
      count-front b n q j,
    )

    -- A key that is not in the list is found as before.
    pub find_node-move_nodes_other :
        (l : List N) (b : ℕ → List N) (q : K) (j : ℕ)
        → count h l q ≡ 0
        → find_node h (move_nodes h size i l b j) q ≡ find_node h (b j) q
    unfolding move_nodes count find_node
    find_node-move_nodes_other [] b q j z = refl
    find_node-move_nodes_other (n ∷ l) b q j z =
        let d = new_index h size i (h.get_key n) in
        find_node-move_nodes_other l (with_bucket b d (n ∷ b d)) q j (omega arith)
        ∙ elim (Bool-cases (d == j)) [
          | inl here ↦
              let same = (==_iff d j).0 here in
              rw (here, ← same, zero_false (h.key_equals (h.get_key n) q) (count h l q) z) refl
          | inr there ↦ rw there refl
        ]

    -- A key that is in the list is found in its new bucket.
    pub find_node-move_nodes :
        (l : List N) (b : ℕ → List N) (q : K)
        → count h l q ≤ 1
        → count h (b (new_index h size i q)) q ≡ 0
        → find_node h (move_nodes h size i l b (new_index h size i q)) q ≡ find_node h l q
    unfolding move_nodes count find_node
    find_node-move_nodes [] b q le z = find_node-none h (b (new_index h size i q)) q z
    find_node-move_nodes (n ∷ l) b q le z =
        let d = new_index h size i (h.get_key n) in
        let dq = new_index h size i q in
        let b' = with_bucket b d (n ∷ b d) in
        elim (Bool-cases (h.key_equals (h.get_key n) q)) [
          | inl same ↦
              find_node-move_nodes_other l b' q dq
                (count_rest (h.key_equals (h.get_key n) q) (count h l q) same le)
              ∙ rw (new_index-congr (h.get_key n) q same, ==_self dq, same) refl
          | inr differ ↦
              find_node-move_nodes l b' q (omega arith)
                (count-front b n q dq ∙ rw (differ, z) (ground arith))
              ∙ rw differ refl
        ]
