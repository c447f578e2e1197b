-- ===== src/Util/Hashtable/Laws.antt =====
-- A table as a map from keys to nodes: the insertion without an expansion, and the removal.
use oscomp.Common.{
  ℕ, ◌+◌, ◌-◌, ◌%◌, ◌^◌, ◌≤◌, ◌<◌, ◌==◌, lt→leb, ==_iff, ==_self, Bool, true, false, if◌then◌else◌,
  Bool-cases, Option, none, some, List, ◌∷◌, ◌≡◌, ◌≢◌, ◌⊎◌, refl, sym, ap, ◌∙◌, inl, inr, arith,
}
use mathlib.Core.Option.{none-ne-some}
use oscomp.Common.Errno.{Ret, ok, fail, eexist, enomem, enoent}
use oscomp.Util.Hashtable.{
  Keys, Table, Expansion, State, index, find_node, lookup, remove_node, removed, remove_by_key,
  with_bucket, add_front, place, insert, threshold,
}
use oscomp.Util.Hashtable.Chain.{
  count, count-none, count-congr, find_node-remove_node, count-remove_node,
}

module _ {K N : Type 0} (h : Keys K N) where
  -- Each key stands once at most, and in the bucket of its hash.
  abbrev pub IsValid : Table N → Type 0
  IsValid t = (q : K) (i : ℕ) → count h (t.buckets i) q ≤ (if i == index h t.size q then 1 else 0)

  -- The same map.
  abbrev pub Same : Table N → Table N → Type 0
  Same t t' = (q : K) → lookup h t' q ≡ lookup h t q

  pub index-congr : (size : ℕ) (a b : K) → h.key_equals a b ≡ true → index h size a ≡ index h size b
  index-congr size a b e = ap (index h size) ((h.key_equals_iff a b).0 e)

  -- The node is in the map in front of all else, or its key is there already, or no memory.
  abbrev pub Inserted : Table N → N → State N × Ret → Type 0
  Inserted t n ((t', e'), ok k) =
      (lookup h t (h.get_key n) ≡ none)
      × IsValid t'
      × ((q : K) → lookup h t' q ≡ (if h.key_equals (h.get_key n) q then some n else lookup h t q))
  Inserted t n ((t', e'), fail x) =
      IsValid t' × Same t t' × (((x ≡ eexist) × (lookup h t (h.get_key n) ≢ none)) ⊎ (x ≡ enomem))

  -- A write of the bucket of a key.
  lookup-with_bucket :
      (t : Table N) (k q : K) (l : List N) (items : ℕ)
      → lookup h
          (record t { items = items; buckets = with_bucket t.buckets (index h t.size k) l })
          q
        ≡ (if index h t.size k == index h t.size q then find_node h l q else lookup h t q)
  unfolding lookup
  lookup-with_bucket t k q l items = elim (Bool-cases (index h t.size k == index h t.size q)) [
    | inl e ↦ rw e
    | inr e ↦ rw e
  ]

  front_at :
      (t : Table N) (n : N)
      → IsValid t
      → find_node h (t.buckets (index h t.size (h.get_key n))) (h.get_key n) ≡ none
      → (q : K)
      → count h (n ∷ t.buckets (index h t.size (h.get_key n))) q
        ≤ (if index h t.size (h.get_key n) == index h t.size q then 1 else 0)
  unfolding count
  front_at t n v e q = elim (Bool-cases (h.key_equals (h.get_key n) q)) [
    | inl same ↦
        let b = index h t.size (h.get_key n) in
        let empty : count h (t.buckets b) q ≡ 0 =
          sym (count-congr h (t.buckets b) (h.get_key n) q same)
          ∙ count-none h (t.buckets b) (h.get_key n) e in
        rw (same, ← index-congr t.size (h.get_key n) q same, ==_self b, empty) (omega arith)
    | inr differ ↦ rw differ (let w = v q (index h t.size (h.get_key n)) in omega arith)
  ]

  -- Another bucket that keeps the condition.
  with_bucket-IsValid :
      (t : Table N) (b : ℕ) (l : List N)
      → IsValid t
      → ((q : K) → count h l q ≤ (if b == index h t.size q then 1 else 0))
      → (q : K) (i : ℕ)
      → count h (with_bucket t.buckets b l i) q ≤ (if i == index h t.size q then 1 else 0)
  with_bucket-IsValid t b l v w q i = elim (Bool-cases (b == i)) [
    | inl e ↦ let same = (==_iff b i).0 e in rw (e, ← same) (w q)
    | inr e ↦ rw e (v q i)
  ]

  lookup_at :
      (t : Table N) (b : ℕ) (q : K)
      → b ≡ index h t.size q
      → lookup h t q ≡ find_node h (t.buckets b) q
  unfolding lookup
  lookup_at t b q e = rw e

  other_key :
      (t : Table N) (k q : K)
      → (index h t.size k == index h t.size q) ≡ false
      → h.key_equals k q ≡ false
  other_key t k q e = elim (Bool-cases (h.key_equals k q)) [
    | inl same ↦ let eq = index-congr t.size k q same in ground arith
    | inr differ ↦ differ
  ]

  front-lookup :
      (t : Table N) (n : N) (items : ℕ) (q : K)
      → lookup h
          (record t {
            items = items;
            buckets =
                with_bucket t.buckets
                  (index h t.size (h.get_key n))
                  (n ∷ t.buckets (index h t.size (h.get_key n)));
          })
          q
        ≡ (if h.key_equals (h.get_key n) q then some n else lookup h t q)
  unfolding find_node
  front-lookup t n items q =
      lookup-with_bucket t (h.get_key n) q (n ∷ t.buckets (index h t.size (h.get_key n))) items
      ∙ elim (Bool-cases (index h t.size (h.get_key n) == index h t.size q)) [
        | inl e ↦ rw (e, lookup_at t (index h t.size (h.get_key n)) q ((==_iff _ _).0 e)) refl
        | inr e ↦ rw (e, other_key t (h.get_key n) q e) refl
      ]

  add_front-Inserted :
      (t : Table N) (e : Expansion N) (n : N) (found : Option N)
      → IsValid t
      → find_node h (t.buckets (index h t.size (h.get_key n))) (h.get_key n) ≡ found
      → Inserted t n (add_front h (t, e) n found)
  unfolding find_node lookup
  add_front-Inserted t e n none v f = (
    f,
    with_bucket-IsValid t (index h t.size (h.get_key n)) _ v (front_at t n v f),
    front-lookup t n ((t.items + 1) % 2 ^ 32),
  )
  add_front-Inserted t e n (some old) v f =
      (v, λ q. refl, inl (refl, λ eq. none-ne-some old (sym eq ∙ f)))

  -- The insertion behind the expansion.
  pub place-Inserted :
      (t : Table N) (e : Expansion N) (n : N) → IsValid t → Inserted t n (place h n ((t, e), ok 0))
  place-Inserted t e n v =
      add_front-Inserted t e n
        (find_node h (t.buckets (index h t.size (h.get_key n))) (h.get_key n)) v refl

  -- hashtable_insert into a valid table below its threshold puts the node into the map if its key
  -- is not there, else fails with -EEXIST; the table stays valid.
  pub insert-Inserted_below :
      (t : Table N) (e : Expansion N) (n : N) (alloc : Bool)
      → IsValid t
      → t.items < threshold h t
      → Inserted t n (insert h (t, e) n alloc)
  unfolding insert
  insert-Inserted_below t e n alloc v lt =
      rw (lt→leb t.items (threshold h t) lt) (place-Inserted t e n v)

  -- What the removal of a key leaves.
  abbrev pub Removed : Table N → K → Table N × Ret → Type 0
  Removed t k (t', ok _) =
      (lookup h t k ≢ none)
      × IsValid t'
      × ((q : K) → lookup h t' q ≡ (if h.key_equals k q then none else lookup h t q))
      × (t'.items ≡ (t.items + (2 ^ 32 - 1)) % 2 ^ 32)
  Removed t k (t', fail e) = (e ≡ enoent) × (lookup h t k ≡ none) × (t' ≡ t)

  rest_at :
      (t : Table N) (k q : K)
      → IsValid t
      → count h (remove_node h (t.buckets (index h t.size k)) k) q
        ≤ (if index h t.size k == index h t.size q then 1 else 0)
  rest_at t k q v =
      let w = v q (index h t.size k) in
      let less = count-remove_node h (t.buckets (index h t.size k)) k q in omega arith

  pub once : (t : Table N) (k q : K) → IsValid t → count h (t.buckets (index h t.size k)) q ≤ 1
  once t k q v = let w = v q (index h t.size k) in ground arith

  removed-lookup :
      (t : Table N) (k q : K) (items : ℕ)
      → IsValid t
      → lookup h
          (record t {
            items = items;
            buckets =
                with_bucket t.buckets
                  (index h t.size k)
                  (remove_node h (t.buckets (index h t.size k)) k);
          })
          q
        ≡ (if h.key_equals k q then none else lookup h t q)
  removed-lookup t k q items v =
      lookup-with_bucket t k q (remove_node h (t.buckets (index h t.size k)) k) items
      ∙ elim (Bool-cases (index h t.size k == index h t.size q)) [
        | inl e ↦
            rw (e, lookup_at t (index h t.size k) q ((==_iff _ _).0 e))
              (find_node-remove_node h (t.buckets (index h t.size k)) k q (once t k q v))
        | inr e ↦ rw (e, other_key t k q e) refl
      ]

  removed-Removed :
      (t : Table N) (k : K) (found : Option N)
      → IsValid t
      → lookup h t k ≡ found
      → Removed t k (removed h t k found)
  removed-Removed t k none v e = (refl, e, refl)
  removed-Removed t k (some n) v e = (
    λ eq. none-ne-some n (sym eq ∙ e),
    with_bucket-IsValid t (index h t.size k) _ v (λ q. rest_at t k q v),
    λ q. removed-lookup t k q ((t.items + (2 ^ 32 - 1)) % 2 ^ 32) v,
    refl,
  )

  -- hashtable_remove_by_key of a valid table takes the key alone from the map and counts down, or
  -- fails with -ENOENT if the key is not there; the table stays valid.
  pub remove_by_key-Removed : (t : Table N) (k : K) → IsValid t → Removed t k (remove_by_key h t k)
  unfolding remove_by_key lookup
  remove_by_key-Removed t k v =
      removed-Removed t k (find_node h (t.buckets (index h t.size k)) k) v refl
