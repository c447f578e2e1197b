-- ===== src/Util/Hashtable/Tests.antt =====
-- Tables of numbers, each its own key and its own hash.
use oscomp.Common.{
  ℕ, ◌==◌, ==_iff, ◌≡◌, refl, true, false, if◌then◌else◌, none, some, [], ◌∷◌, arith,
}
use oscomp.Util.Hashtable.{
  Keys, Table, idle, index, lookup, insert, remove_by_key, setup, try_expand, next_power_of_2,
  transfer, move_buckets, move_nodes,
}
use oscomp.Util.Hashtable.Chain.{count}
use oscomp.Util.Hashtable.Laws.{IsValid, Inserted, Removed, remove_by_key-Removed}
use oscomp.Util.Hashtable.Expand.{Short, insert-Inserted_small}
use oscomp.Util.Hashtable.Expand.Lost.{lookup-try_expand_lost}

abbrev numbers : Keys ℕ ℕ
numbers = record {
  hash_func = λ k. k;
  get_key = λ n. n;
  key_equals = λ a b. a == b;
  key_equals_iff = ==_iff;
}

abbrev sized : ℕ → ℕ → Table ℕ
sized size items = record {
  size = size;
  items = items;
  max_load = 70;
  expanding = false;
  buckets = λ _. [];
}

sized-IsValid : (size items : ℕ) → IsValid numbers (sized size items)
unfolding count
sized-IsValid size items q i = omega arith

setup_rounds : setup 17 10 false true ≡ some (sized 32 0)
unfolding setup next_power_of_2
setup_rounds = refl

-- Full by its count, so that the first insertion expands it.
insert-Inserted_small_example :
    Inserted numbers (sized 16 11) 21 (insert numbers (sized 16 11, idle) 21 true)
    × Short numbers (sized 16 11) 21 true (insert numbers (sized 16 11, idle) 21 true)
insert-Inserted_small_example =
    insert-Inserted_small numbers (sized 16 11) idle 21 4 true (sized-IsValid 16 11) refl
      (omega arith) refl refl

insert_expands : (insert numbers (sized 16 11, idle) 21 true).0.0.size ≡ 32
unfolding insert transfer move_buckets move_nodes
insert_expands = refl

-- The keys 5 and 21 share a bucket.
abbrev shared : Table ℕ
shared = record {
  size = 16;
  items = 2;
  max_load = 70;
  expanding = false;
  buckets = λ i. if i == 5 then 5 ∷ 21 ∷ [] else [];
}

index_five : index numbers 16 5 ≡ 5
unfolding index
index_five = refl

index_again : index numbers 16 21 ≡ 5
unfolding index
index_again = refl

shared-IsValid : IsValid numbers shared
unfolding count
shared-IsValid q i = ground (arith, index_five, index_again)

remove_by_key-Removed_example : Removed numbers shared 21 (remove_by_key numbers shared 21)
remove_by_key-Removed_example = remove_by_key-Removed numbers shared 21 shared-IsValid

lookup-try_expand_lost_example :
    lookup numbers (try_expand numbers (sized 32 30, idle) true).0.0 7 ≡ none
unfolding index
lookup-try_expand_lost_example =
    lookup-try_expand_lost numbers (sized 32 30) idle 7 (omega arith) (omega arith) refl refl
      (omega arith)
