-- ===== src/Util/Hashtable/Expand.antt =====
-- An expansion that ends in one call keeps the map, and the insertion with it; one that does not
-- end hides what it has moved.
mod Move
mod Loop
pub mod Lost
use oscomp.Common.{
  ℕ, zero, suc, ◌+◌, ◌-◌, ◌*◌, ◌%◌, ◌^◌, ◌≤◌, ◌<◌, ◌==◌, ltb, leb, le→leb, lt→leb, le→ltb, ltb→le,
  ltb→lt, min, bit_and, ==_iff, ==_self, ==_ne, Bool, true, false, not, ◌&&◌, if◌then◌else◌,
  Bool-cases, Option, none, some, List, [], ◌≡◌, ◌≢◌, refl, sym, ap, ◌∙◌, inl, inr, arith,
}
use native.Mathlib.Nat.{pow-suc, mod-lt}
use oscomp.Common.Bits.{test_bit, pow-pos}
use oscomp.Common.Bits.Low.{bit_and-low, low-suc}
use oscomp.Common.Errno.{Ret, ok, fail, enomem}
use oscomp.Util.Hashtable.{
  Keys, Table, Expansion, State, idle, index, find_node, lookup, new_index, move_buckets, transfer,
  add_front, started, finish, begin, set_transfer, try_expand, threshold, place, insert,
}
use oscomp.Util.Hashtable.Chain.{count}
use oscomp.Util.Hashtable.Laws.{
  IsValid, Same, once, Inserted, place-Inserted, insert-Inserted_below,
}
use Loop.{destination, MovedTo, Moving, move_buckets-Moving}

third :
    {A : Type 0} (p x y : Bool) (a b c d : A)
    → p ≡ false
    → x ≡ false
    → y ≡ false
    → (if p then a else if x then b else if y then c else d) ≡ d
third p x y a b c d e f g = rw (e, f, g) refl

module _ {K N : Type 0} (h : Keys K N) where
  -- One more bit of the hash.
  index-double : (k : ℕ) (q : K) → index h (2 ^ k * 2) q ≡ new_index h (2 ^ k) (index h (2 ^ k) q) q
  unfolding index new_index test_bit
  index-double k q =
      let size : 2 ^ k * 2 ≡ 2 ^ suc k = omega (arith, pow-suc 2 k) in
      rw (size, bit_and-low (suc k) (h.hash_func q), bit_and-low k (h.hash_func q))
        (ground (arith, low-suc k (h.hash_func q)))

  index-lt : (k : ℕ) (q : K) → index h (2 ^ k) q < 2 ^ k
  unfolding index
  index-lt k q = rw (bit_and-low k (h.hash_func q)) (mod-lt (h.hash_func q) (pow-pos k))

  -- The table behind the expansion.
  pub record Expanded (t : Table N) (s : State N) : Type 0 where
    pub valid : IsValid h s.0
    pub same : Same h t s.0
    pub size : s.0.size ≡ t.size * 2
    pub items : s.0.items ≡ t.items
    pub idles : s.1 ≡ idle

  begun : (t : Table N) → Moving h t (started h t).1 0 (started h t)
  unfolding count
  begun t = record {
    size = refl;
    items = refl;
    new_size = refl;
    moved = record { counts = λ q j. ground arith; finds = λ q lt. absurd (omega arith) };
    left = λ k le. refl;
  }

  module _ (t : Table N) (k : ℕ) (v : IsValid h t) (size : t.size ≡ 2 ^ k)
      (small : t.size ≤ 16) where
    index-new : (q : K) → index h (t.size * 2) q ≡ destination h t q
    index-new q = rw size (index-double k q)

    index-in_range : (q : K) → index h t.size q < t.size
    index-in_range q = rw size (index-lt k q)

    new-IsValid :
        (b : ℕ → List N)
        → MovedTo h t t.size b
        → (q : K) (i : ℕ) → count h (b i) q ≤ (if i == index h (t.size * 2) q then 1 else 0)
    new-IsValid b m q i =
        let c = m.counts q i in
        let lt = index-in_range q in let one = once h t q q v in rw (index-new q) (ground arith)

    new-Same :
        (b : ℕ → List N)
        → MovedTo h t t.size b
        → (q : K) → find_node h (b (index h (t.size * 2) q)) q ≡ lookup h t q
    new-Same b m q = rw (index-new q) (m.finds q (index-in_range q))

    finish-Expanded :
        (s : State N)
        → Moving h t (started h t).1 t.size s
        → Expanded t (finish h (set_transfer h t.size s))
    unfolding lookup
    finish-Expanded (t', e') m =
        let doubled : e'.new_size ≡ t.size * 2 = omega (arith, m.new_size) in
        rw (le→leb t'.size t.size (omega (arith, m.size))) (record {
          valid = rw doubled (new-IsValid e'.new_buckets m.moved);
          same = rw doubled (new-Same e'.new_buckets m.moved);
          size = doubled;
          items = m.items;
          idles = refl;
        })

    pub transfer-Expanded : Expanded t (transfer h (started h t))
    unfolding transfer
    transfer-Expanded =
        let end : min 16 t.size ≡ t.size = omega arith in
        let rounds : t.size - 0 ≡ t.size = omega arith in
        let all : 0 + t.size ≡ t.size = omega arith in
        let moving = move_buckets-Moving h t (started h t).1 t.size 0 (started h t) v (begun t) in
        rw (end, rounds)
          (finish-Expanded (move_buckets h t.size 0 (started h t)) (rw all at moving))

  Inserted-Same :
      (t t' : Table N) (n : N) (r : State N × Ret)
      → Same h t t'
      → Inserted h t' n r
      → Inserted h t n r
  Inserted-Same t t' n ((u, e), ok k) s (a, b, c) =
      (sym (s (h.get_key n)) ∙ a, b, λ q. c q ∙ rw (s q) refl)
  Inserted-Same t t' n ((u, e), fail x) s (a, b, c) = (a, λ q. b q ∙ s q, rw (← s (h.get_key n)) c)

  try_expand-begin :
      (t : Table N) (e : Expansion N) (alloc : Bool)
      → ltb t.items (threshold h t) ≡ false
      → e.in_progress ≡ false
      → t.expanding ≡ false
      → try_expand h (t, e) alloc ≡ begin h (t, e) alloc
  unfolding try_expand
  try_expand-begin t e alloc full idle_now settled =
      third (ltb t.items (threshold h t)) e.in_progress t.expanding _ _ _ _ full idle_now settled

  begin-Inserted :
      (t : Table N) (e : Expansion N) (n : N) (k : ℕ) (alloc : Bool)
      → IsValid h t
      → t.size ≡ 2 ^ k
      → t.size ≤ 16
      → Inserted h t n (place h n (begin h (t, e) alloc))
  begin-Inserted t e n k false v size small = (v, λ q. refl, inr refl)
  begin-Inserted t e n k true v size small =
      let x = transfer-Expanded t k v size small in
      let s = transfer h (started h t) in
      Inserted-Same t s.0 n (place h n (s, ok 0)) x.same (place-Inserted h s.0 s.1 n x.valid)

  place-memory : (n : N) (s : State N) (k : ℕ) → (place h n (s, ok k)).1 ≢ fail enomem
  place-memory n s k = go (find_node h (s.0.buckets (index h s.0.size (h.get_key n))) (h.get_key n))
    where
      go : (o : Option N) → (add_front h s n o).1 ≢ fail enomem
      go none e = absurd (cc)
      go (some old) e = absurd (cc)

  begin-memory :
      (t : Table N) (e : Expansion N) (n : N) (alloc : Bool)
      → (place h n (begin h (t, e) alloc)).1 ≡ fail enomem
      → alloc ≡ false
  begin-memory t e n false why = refl
  begin-memory t e n true why = absurd (place-memory n (transfer h (started h t)) 0 why)

  -- When the failure is -ENOMEM.
  abbrev pub Short : Table N → N → Bool → State N × Ret → Type 0
  Short t n alloc r = r.1 ≡ fail enomem → (alloc ≡ false) × (threshold h t ≤ t.items)

  -- hashtable_insert into a valid table of at most 16 buckets, a power of two, of which none is
  -- being moved, puts the node into the map, where its key was not, or fails and leaves the map as
  -- it is; it fails with -EEXIST only where the key is there, and with -ENOMEM only where the table
  -- has reached its threshold and the larger one cannot be allocated. Whether or not the table is
  -- expanded on the way, it stays valid.
  pub insert-Inserted_small :
      (t : Table N) (e : Expansion N) (n : N) (k : ℕ) (alloc : Bool)
      → IsValid h t
      → t.size ≡ 2 ^ k
      → t.size ≤ 16
      → e.in_progress ≡ false
      → t.expanding ≡ false
      → Inserted h t n (insert h (t, e) n alloc) × Short t n alloc (insert h (t, e) n alloc)
  unfolding insert
  insert-Inserted_small t e n k alloc v size small idle_now settled =
      elim (Bool-cases (ltb t.items (threshold h t))) [
        | inl below ↦ (
          insert-Inserted_below h t e n alloc v (ltb→lt _ _ below),
          rw (lt→leb t.items (threshold h t) (ltb→lt _ _ below))
              (λ why. absurd (place-memory n (t, e) 0 why)),
        )
        | inr full ↦
            rw
              (
                le→leb (threshold h t) t.items (ltb→le _ _ full),
                try_expand-begin t e alloc full idle_now settled,
              )
              (
                begin-Inserted t e n k alloc v size small,
                λ why. (begin-memory t e n alloc why, ltb→le _ _ full),
              )
      ]
