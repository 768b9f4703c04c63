-- ===== src/Orderbook/SkipList/Tests.antt =====
-- Prices and quantities that are numbers; every third coin is tails.
use market_tick_aggregator.Prelude.{ℕ, ◌≡◌, refl, Bool, not, List, [], ◌∷◌, some, nat_eq, ◌==◌, ◌%◌}
use market_tick_aggregator.Orderbook.OrderedTree.{Levels, put_level, drop_level}
use market_tick_aggregator.Orderbook.OrderedTree.Levels.{Ascends}
use market_tick_aggregator.Orderbook.OrderedTree.Whole.{nat_order}
use market_tick_aggregator.Prelude.Assoc.{lookup}
use market_tick_aggregator.Orderbook.SkipList.{
  new_skip_list, ascending, descending, get, least, greatest, iterate, insert, delete, insert_first,
  set_prev, set_forward, allocate, find, find_from, random_level, flip_levels, walk, insert_between,
  place_before, delete_node, link, lower_level, replace_before, set_entry, unlink,
}
use market_tick_aggregator.Orderbook.SkipList.Run.{
  Op, inserts, deletes, run, run_levels, run-run_levels,
}
use market_tick_aggregator.Orderbook.OrderedTree.{put_level}
use market_tick_aggregator.Orderbook.OrderedTree.{drop_level}

abbrev coins : ℕ → Bool
coins n = not (n % 3 == 0)

abbrev few_ops : List (Op ℕ ℕ)
few_ops = inserts 5 1 ∷ inserts 3 2 ∷ deletes 5 ∷ []

few_ops_result : ascending (run few_ops (new_skip_list coins)) ≡ (3, 2) ∷ []
unfolding ascending iterate run insert delete new_skip_list insert_first set_prev set_forward
    allocate find find_from random_level flip_levels walk insert_between place_before delete_node
    link lower_level replace_before set_entry unlink
few_ops_result = refl

-- 3 is gone, 5 has its second value, and there was no 4 to delete
abbrev ops : List (Op ℕ ℕ)
ops =
    inserts 5 1 ∷ inserts 3 2 ∷ inserts 9 4 ∷ inserts 5 7 ∷ deletes 3 ∷ deletes 4 ∷ inserts 4 8 ∷ []

abbrev expected : Levels ℕ ℕ
expected = (4, 8) ∷ (5, 7) ∷ (9, 4) ∷ []

run-run_levels_example :
    let s = run ops (new_skip_list coins) in
    Ascends expected
    × (ascending s ≡ expected)
    × (descending s ≡ (9, 4) ∷ (5, 7) ∷ (4, 8) ∷ [])
    × ((k : ℕ) → get s k ≡ lookup k expected)
    × (least s ≡ some (4, 8))
    × (greatest s ≡ some (9, 4))
    × (s.size ≡ 3)
unfolding run_levels put_level drop_level
run-run_levels_example = run-run_levels coins ops
