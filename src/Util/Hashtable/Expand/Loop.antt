-- ===== src/Util/Hashtable/Expand/Loop.antt =====
-- What the loop over the buckets has moved after each of its rounds.
use oscomp.Common.{
  ℕ, zero, suc, ◌+◌, ◌≤◌, ◌<◌, ◌==◌, ltb, ==_iff, ==_ne, ◌&&◌, if◌then◌else◌, Bool-cases, List, [],
  ◌≡◌, ◌≢◌, ap, ◌∙◌, inl, inr, arith,
}
use oscomp.Util.Hashtable.{
  Keys, Table, Expansion, State, index, find_node, lookup, new_index, move_nodes, move_buckets,
  with_bucket,
}
use oscomp.Util.Hashtable.Chain.{count}
use oscomp.Util.Hashtable.Laws.{IsValid, once}
use oscomp.Util.Hashtable.Expand.Move.{
  count-move_nodes, find_node-move_nodes, find_node-move_nodes_other,
}

counts_here :
    (j d x c cb : ℕ)
    → cb ≡ (if (j == d) && ltb x x then c else 0)
    → cb + (if j == d then c else 0) ≡ (if (j == d) && ltb x (x + 1) then c else 0)
counts_here j d x c cb e = ground arith

counts_there :
    (j e d x i c cb : ℕ)
    → i ≢ x
    → cb ≡ (if (j == d) && ltb x i then c else 0)
    → cb + (if j == e then 0 else 0) ≡ (if (j == d) && ltb x (i + 1) then c else 0)
counts_there j e d x i c cb ne m = ground arith

nothing_yet : (d x i c : ℕ) → i ≡ x → (if (d == d) && ltb x i then c else 0) ≡ 0
nothing_yet d x i c e = ground arith

module _ {K N : Type 0} (h : Keys K N) where
  -- The new bucket of a key.
  abbrev pub destination : Table N → K → ℕ
  destination t q = new_index h t.size (index h t.size q) q

  -- The buckets of `t` below `i` are in the new buckets `b`, and nothing else is.
  pub record MovedTo (t : Table N) (i : ℕ) (b : ℕ → List N) : Type 0 where
    pub counts :
        (q : K) (j : ℕ)
        → count h (b j) q ≡ (
            if (j == destination t q) && ltb (index h t.size q) i
            then count h (t.buckets (index h t.size q)) q
            else 0)
    pub finds : (q : K) → index h t.size q < i → find_node h (b (destination t q)) q ≡ lookup h t q

  none_here :
      (t : Table N) (i : ℕ) (q : K)
      → IsValid h t
      → i ≢ index h t.size q
      → count h (t.buckets i) q ≡ 0
  none_here t i q v ne = let w = v q i in ground arith

  step_counts :
      (t : Table N) (i : ℕ) (b : ℕ → List N)
      → IsValid h t
      → MovedTo t i b
      → (q : K) (j : ℕ)
      → count h (move_nodes h t.size i (t.buckets i) b j) q ≡ (
          if (j == destination t q) && ltb (index h t.size q) (i + 1)
          then count h (t.buckets (index h t.size q)) q
          else 0)
  step_counts t i b v m q j =
      count-move_nodes h t.size i (t.buckets i) b q j ∙ elim (Bool-cases (i == index h t.size q)) [
        | inl here ↦
            let same = (==_iff i (index h t.size q)).0 here in
            rw same (
              counts_here j (destination t q) (index h t.size q)
                (count h (t.buckets (index h t.size q)) q) (count h (b j) q)
                (m.counts q j
                  ∙ ap
                      (λ k.
                        if (j == destination t q) && ltb (index h t.size q) k
                        then count h (t.buckets (index h t.size q)) q
                        else 0)
                      same))
        | inr there ↦
            let ne : i ≢ index h t.size q = λ e. ground arith in
            rw (none_here t i q v ne) (
              counts_there j (new_index h t.size i q) (destination t q) (index h t.size q) i
                (count h (t.buckets (index h t.size q)) q) (count h (b j) q) ne (m.counts q j))
      ]

  step_finds :
      (t : Table N) (i : ℕ) (b : ℕ → List N)
      → IsValid h t
      → MovedTo t i b
      → (q : K) → index h t.size q < i + 1
      → find_node h (move_nodes h t.size i (t.buckets i) b (destination t q)) q ≡ lookup h t q
  unfolding lookup
  step_finds t i b v m q lt = elim (Bool-cases (i == index h t.size q)) [
    | inl here ↦
        let same = (==_iff i (index h t.size q)).0 here in
        rw same (
          find_node-move_nodes h t.size (index h t.size q) (t.buckets (index h t.size q)) b q
            (once h t q q v)
            (m.counts q (destination t q)
              ∙ nothing_yet (destination t q) (index h t.size q) i
                  (count h (t.buckets (index h t.size q)) q) same))
    | inr there ↦
        let ne : i ≢ index h t.size q = λ e. ground arith in
        find_node-move_nodes_other h t.size i (t.buckets i) b q (destination t q)
          (none_here t i q v ne)
        ∙ m.finds q (omega arith)
  ]

  step_MovedTo :
      (t : Table N) (i : ℕ) (b : ℕ → List N)
      → IsValid h t
      → MovedTo t i b
      → MovedTo t (i + 1) (move_nodes h t.size i (t.buckets i) b)
  step_MovedTo t i b v m = record {
    counts = λ q j. step_counts t i b v m q j;
    finds = λ q lt. step_finds t i b v m q lt;
  }

  -- The state of the loop in front of the bucket `i`; `e` is the expansion that it began with.
  pub record Moving (t : Table N) (e : Expansion N) (i : ℕ) (s : State N) : Type 0 where
    pub size : s.0.size ≡ t.size
    pub items : s.0.items ≡ t.items
    pub new_size : s.1.new_size ≡ e.new_size
    pub moved : MovedTo t i s.1.new_buckets
    pub left : (k : ℕ) → i ≤ k → s.0.buckets k ≡ t.buckets k

  step_Moving :
      (t : Table N) (e : Expansion N) (i : ℕ) (s : State N)
      → IsValid h t
      → Moving t e i s
      → Moving t e (i + 1) (
        record s.0 { buckets = with_bucket s.0.buckets i [] },
        record s.1 { new_buckets = move_nodes h s.0.size i (s.0.buckets i) s.1.new_buckets },
      )
  step_Moving t e i s v m = record {
    size = m.size;
    items = m.items;
    new_size = m.new_size;
    moved = rw (m.size, m.left i (omega arith)) (step_MovedTo t i s.1.new_buckets v m.moved);
    left = λ k le. rw (==_ne i k (λ eq. omega arith)) (m.left k (omega arith));
  }

  pub move_buckets-Moving :
      (t : Table N) (e : Expansion N) (rounds i : ℕ) (s : State N)
      → IsValid h t
      → Moving t e i s
      → Moving t e (i + rounds) (move_buckets h rounds i s)
  unfolding move_buckets
  move_buckets-Moving t e zero i s v m = let same : i + 0 ≡ i = omega arith in rw same m
  move_buckets-Moving t e (suc rounds) i (t', e') v m =
      let same : i + suc rounds ≡ i + 1 + rounds = omega arith in
      rw same (
        move_buckets-Moving t e rounds (i + 1)
          (
            record t' { buckets = with_bucket t'.buckets i [] },
            record e' { new_buckets = move_nodes h t'.size i (t'.buckets i) e'.new_buckets },
          )
          v (step_Moving t e i (t', e') v m))
