-- ===== src/Util/Radix/Tests.antt =====
-- Runs of the radix tree.
use oscomp.Common.{ℕ, zero, suc, ◌<◌, ◌≡◌, refl, false, none, some, [], ◌∷◌, arith}
use oscomp.Common.Errno.{fail, eexist, enomem}
use oscomp.Util.Radix.{Root, empty, insert, lookup, add_level, index_in_node, capacity, height}
use oscomp.Util.Radix.Index.{Plain, capacity-suc, capacity_pos}
use oscomp.Util.Radix.Insert.{Inserted, insert-Inserted}
use oscomp.Util.Radix.Remove.{delete}
use oscomp.Util.Radix.Remove.Laws.{Deleted}
use oscomp.Util.Radix.Remove.Delete.{delete-Deleted}
use oscomp.Common.Bits.{test_bit, set_bit, clear_bit}
use oscomp.Util.Radix.Tags.{tag_set, tag_clear, tag_get}
use oscomp.Util.Radix.Tags.Laws.{Cleared, tag_clear-Cleared}
use oscomp.Util.Radix.Walk.{gang_lookup, count_items, sum_slots, one_if_some}
use oscomp.Util.Radix.Walk.Gang.{Run, gang_lookup-Run}
use oscomp.Util.Radix.Walk.Count.{count_items-lookup}

-- Items at 5, then at 6 and 70.
abbrev first : Root
unfolding insert add_level index_in_node capacity
first = (insert empty 10 5 (some 77)).0

abbrev second : Root
unfolding insert add_level index_in_node capacity
second = (insert (insert first 10 6 (some 79)).0 10 70 (some 78)).0

insert_found : lookup first 5 ≡ some 77
unfolding first lookup
insert_found = refl

insert_far : lookup second 70 ≡ some 78
unfolding second lookup
insert_far = refl

insert_twice : (insert second 10 6 (some 78)).2 ≡ fail eexist
unfolding second insert
insert_twice = refl

insert_no_memory : (insert first 0 70 (some 78)).2 ≡ fail enomem
unfolding first insert
insert_no_memory = refl

delete_found : (r : Root) × (delete second 70 ≡ some (r, some 78)) × (lookup r 70 ≡ none)
unfolding second delete lookup
delete_found = (_, refl, refl)

tag_set_sibling : tag_get (tag_clear (tag_set (tag_set second 5 0).0 6 0).0 6 0).0 5 0 ≡ false
unfolding second tag_get tag_set tag_clear test_bit set_bit clear_bit
tag_set_sibling = refl

gang_found : gang_lookup second 5 10 ≡ 77 ∷ 79 ∷ []
unfolding second gang_lookup lookup
gang_found = refl

count_three : count_items second ≡ 3
unfolding second count_items
count_three = refl

above-Plain : (i : ℕ) → 64 < i → i < 4096 → Plain i
unfolding capacity
above-Plain i lo hi zero e = omega arith
above-Plain i lo hi (suc zero) e = omega arith
above-Plain i lo hi (suc (suc k)) e =
    omega (arith, capacity-suc (suc k), capacity-suc k, capacity_pos k)

five-Plain : Plain 5
unfolding capacity
five-Plain zero e = omega arith
five-Plain (suc k) e = omega (arith, capacity-suc k, capacity_pos k)

insert-Inserted_example : Inserted first 70 78 10 (insert first 10 70 (some 78))
unfolding first
insert-Inserted_example =
    insert-Inserted first 10 70 78 (above-Plain 70 (omega arith) (omega arith)) (omega arith)

delete-Deleted_example : Deleted first 5 (delete first 5)
unfolding first lookup
delete-Deleted_example = delete-Deleted first 5 five-Plain (λ e. omega arith, omega arith)

tag_clear-Cleared_example : Cleared second 6 0 (tag_clear second 6 0).0
unfolding second capacity
tag_clear-Cleared_example = tag_clear-Cleared second 6 0 (omega arith) (omega arith) (omega arith)

gang_lookup-Run_example : Run second 5 10 (gang_lookup second 5 10)
gang_lookup-Run_example = gang_lookup-Run second 5 10 (omega arith)

count_items-lookup_example :
    count_items first ≡ sum_slots (λ i. one_if_some (lookup first i)) (capacity (height first))
count_items-lookup_example = count_items-lookup first
