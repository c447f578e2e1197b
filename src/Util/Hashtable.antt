-- ===== src/Util/Hashtable.antt =====
-- The hash tables of kernel/util/hashtable.c. A bucket is the list of its nodes, from its head on; the
-- children prove that a table behaves as a map from keys to nodes.
use oscomp.Common.{
  ℕ, zero, suc, ◌+◌, ◌-◌, ◌*◌, ◌/◌, ◌%◌, ◌^◌, ◌<◌, ◌==◌, ltb, leb, ◌||◌, bit_and, bit_or, min, Bool,
  true, false, if◌then◌else◌, Option, none, some, List, [], ◌∷◌, ◌≡◌, ◌↔◌,
}
use oscomp.Common.Errno.{Ret, ok, fail, eexist, enomem, enoent}
mod Chain
pub mod Laws
pub mod Expand
mod Tests

-- The callbacks of a table: the key of a node, the whole hash of a key, and the equality of keys.
pub record Keys (K N : Type 0) : Type 0 where
  pub hash_func : K → ℕ
  pub get_key : N → K
  pub key_equals : K → K → Bool
  pub key_equals_iff : (a b : K) → (key_equals a b ≡ true) ↔ (a ≡ b)

pub record Table (N : Type 0) : Type 0 where
  pub size : ℕ
  pub items : ℕ
  pub max_load : ℕ
  pub expanding : Bool
  pub buckets : ℕ → List N

-- The static variables of hashtable_try_expand, which all tables share.
pub record Expansion (N : Type 0) : Type 0 where
  pub new_buckets : ℕ → List N
  pub new_size : ℕ
  pub transfer_index : ℕ
  pub in_progress : Bool

abbrev pub idle : {N : Type 0} → Expansion N
idle = record { new_buckets = λ _. []; new_size = 0; transfer_index = 0; in_progress = false }

abbrev pub State : Type 0 → Type 0
State N = Table N × Expansion N

-- x |= x >> 1, 2, 4, 8, 16, from x - 1 on.
abbrev pub smear : ℕ → ℕ → ℕ
smear x k = bit_or x (x / 2 ^ k)

pub next_power_of_2 : ℕ → ℕ
next_power_of_2 x =
    (smear (smear (smear (smear (smear ((x + (2 ^ 32 - 1)) % 2 ^ 32) 1) 2) 4) 8) 16 + 1) % 2 ^ 32

abbrev pub default_load : ℕ → ℕ
default_load max_load = if ltb max_load 50 || ltb 90 max_load then 70 else max_load

abbrev pub at_least : ℕ → ℕ
at_least size = if ltb size 16 then 16 else size

-- hashtable_setup, where `alloc` says whether the buckets are allocated. It does not set
-- `expanding`: that is what the memory of the table held.
pub setup : {N : Type 0} → ℕ → ℕ → Bool → Bool → Option (Table N)
unfolding next_power_of_2
setup initial_size max_load expanding false = none
setup initial_size max_load expanding true = some record {
  size = next_power_of_2 (at_least initial_size);
  items = 0;
  max_load = default_load max_load;
  expanding = expanding;
  buckets = λ _. [];
}

abbrev pub with_bucket : {N : Type 0} → (ℕ → List N) → ℕ → List N → ℕ → List N
with_bucket b i l j = if i == j then l else b j

module _ {K N : Type 0} (h : Keys K N) where
  -- hash & (size - 1)
  pub index : ℕ → K → ℕ
  index size k = bit_and (h.hash_func k) (size - 1)

  -- The search of a bucket.
  pub find_node : List N → K → Option N
  find_node [] k = none
  find_node (n ∷ l) k = if h.key_equals (h.get_key n) k then some n else find_node l k

  pub lookup : Table N → K → Option N
  unfolding find_node index
  lookup t k = find_node (t.buckets (index t.size k)) k

  -- The bucket that a node of the bucket `i` goes to.
  pub new_index : ℕ → ℕ → K → ℕ
  new_index size i k = if bit_and (h.hash_func k) size == 0 then i else i + size

  -- The nodes of one bucket, each to the front of its new one.
  pub move_nodes : ℕ → ℕ → List N → (ℕ → List N) → ℕ → List N
  move_nodes size i [] b = b
  move_nodes size i (n ∷ l) b =
      let j = new_index size i (h.get_key n) in move_nodes size i l (with_bucket b j (n ∷ b j))

  -- The loop over `rounds` buckets: the old ones are left empty.
  pub move_buckets : ℕ → ℕ → State N → State N
  move_buckets zero i s = s
  move_buckets (suc rounds) i (t, e) = move_buckets rounds (i + 1) (
    record t { buckets = with_bucket t.buckets i [] },
    record e { new_buckets = move_nodes t.size i (t.buckets i) e.new_buckets },
  )

  -- The new buckets take the place of the old ones when all are moved.
  abbrev pub finish : State N → State N
  finish (t, e) =
      if leb t.size e.transfer_index
      then (record t { buckets = e.new_buckets; size = e.new_size; expanding = false }, idle)
      else (t, e)

  abbrev pub set_transfer : ℕ → State N → State N
  set_transfer i (t, e) = (t, record e { transfer_index = i })

  -- At most 16 buckets in a call.
  pub transfer : State N → State N
  unfolding move_buckets
  transfer (t, e) =
      let end = min (e.transfer_index + 16) t.size in
      finish (set_transfer end (move_buckets (end - e.transfer_index) e.transfer_index (t, e)))

  abbrev pub started : Table N → State N
  started t = (
    record t { expanding = true },
    record {
      new_buckets = λ _. [];
      new_size = t.size * 2 % 2 ^ 32;
      transfer_index = 0;
      in_progress = true;
    },
  )

  abbrev pub begin : State N → Bool → State N × Ret
  begin (t, e) false =
      ((t, record e { new_buckets = λ _. []; new_size = t.size * 2 % 2 ^ 32 }), fail enomem)
  begin (t, e) true = (transfer (started t), ok 0)

  abbrev pub threshold : Table N → ℕ
  threshold t = t.size * t.max_load % 2 ^ 32 / 100

  pub try_expand : State N → Bool → State N × Ret
  unfolding transfer
  try_expand (t, e) alloc =
      if ltb t.items (threshold t)
      then ((t, e), ok 0)
      else if e.in_progress
      then (transfer (t, e), ok 0)
      else if t.expanding
      then ((t, e), ok 0)
      else begin (t, e) alloc

  abbrev pub add_front : State N → N → Option N → State N × Ret
  add_front s n (some old) = (s, fail eexist)
  add_front (t, e) n none =
      let i = index t.size (h.get_key n) in
      (
        (
          record t {
            items = (t.items + 1) % 2 ^ 32;
            buckets = with_bucket t.buckets i (n ∷ t.buckets i);
          },
          e,
        ),
        ok 0,
      )

  -- The insertion after the expansion.
  abbrev pub place : N → State N × Ret → State N × Ret
  place n (s, fail x) = (s, fail x)
  place n (s, ok _) =
      add_front s n (find_node (s.0.buckets (index s.0.size (h.get_key n))) (h.get_key n))

  pub insert : State N → N → Bool → State N × Ret
  unfolding try_expand find_node
  insert (t, e) n alloc =
      place n (if leb (threshold t) t.items then try_expand (t, e) alloc else ((t, e), ok 0))

  -- The list without the first node of the key.
  pub remove_node : List N → K → List N
  remove_node [] k = []
  remove_node (n ∷ l) k = if h.key_equals (h.get_key n) k then l else n ∷ remove_node l k

  abbrev pub removed : Table N → K → Option N → Table N × Ret
  removed t k none = (t, fail enoent)
  removed t k (some n) =
      let i = index t.size k in
      (
        record t {
          items = (t.items + (2 ^ 32 - 1)) % 2 ^ 32;
          buckets = with_bucket t.buckets i (remove_node (t.buckets i) k);
        },
        ok 0,
      )

  pub remove_by_key : Table N → K → Table N × Ret
  unfolding find_node remove_node
  remove_by_key t k = removed t k (find_node (t.buckets (index t.size k)) k)
