-- ===== src/Util/Hashtable/Expand/Lost.antt =====
-- A table of more than 16 buckets after the first call of its expansion.
use oscomp.Common.{
  ℕ, zero, suc, ◌+◌, ◌≤◌, ◌<◌, ◌==◌, lt→leb, le→ltb, min, ==_iff, ==_ne, true, false, Bool-cases,
  none, [], ◌≡◌, ◌≢◌, refl, ◌∙◌, inl, inr, arith,
}
use oscomp.Util.Hashtable.{
  Keys, Table, Expansion, State, index, find_node, lookup, move_buckets, transfer, started,
  try_expand, threshold,
}

module _ {K N : Type 0} (h : Keys K N) where
  move_buckets_size : (rounds i : ℕ) (s : State N) → (move_buckets h rounds i s).0.size ≡ s.0.size
  unfolding move_buckets
  move_buckets_size zero i s = refl
  move_buckets_size (suc rounds) i (t, e) = move_buckets_size rounds (i + 1) _

  move_buckets_below :
      (rounds i : ℕ) (s : State N) (k : ℕ)
      → k < i
      → (move_buckets h rounds i s).0.buckets k ≡ s.0.buckets k
  unfolding move_buckets
  move_buckets_below zero i s k lt = refl
  move_buckets_below (suc rounds) i (t, e) k lt =
      move_buckets_below rounds (i + 1) _ k (omega arith) ∙ rw (==_ne i k (λ eq. omega arith)) refl

  move_buckets_empty :
      (rounds i : ℕ) (s : State N) (k : ℕ)
      → i ≤ k
      → k < i + rounds
      → (move_buckets h rounds i s).0.buckets k ≡ []
  unfolding move_buckets
  move_buckets_empty zero i s k le lt = absurd (omega arith)
  move_buckets_empty (suc rounds) i (t, e) k le lt = elim (Bool-cases (i == k)) [
    | inl here ↦
        let same = (==_iff i k).0 here in
        move_buckets_below rounds (i + 1) _ k (omega arith) ∙ rw here refl
    | inr there ↦
        let ne : i ≢ k = λ e'. ground arith in
        move_buckets_empty rounds (i + 1) _ k (omega arith) (omega arith)
  ]

  -- In a table of more than 16 buckets that begins to expand, hashtable_lookup finds no key of the
  -- first 16 buckets after the call.
  pub lookup-try_expand_lost :
      (t : Table N) (e : Expansion N) (q : K)
      → 16 < t.size
      → threshold h t ≤ t.items
      → e.in_progress ≡ false
      → t.expanding ≡ false
      → index h t.size q < 16
      → lookup h (try_expand h (t, e) true).0.0 q ≡ none
  unfolding try_expand transfer lookup find_node
  lookup-try_expand_lost t e q big full idle_now settled lt =
      let end : min 16 t.size ≡ 16 = omega arith in
      let s = move_buckets h 16 0 (started h t) in
      let size = move_buckets_size 16 0 (started h t) in
      rw (le→ltb t.items (threshold h t) full, idle_now, settled, end)
        (rw (lt→leb 16 s.0.size (omega (arith, size)), size)
          (rw (move_buckets_empty 16 0 (started h t) (index h t.size q) (omega arith) (omega arith))
            refl))
