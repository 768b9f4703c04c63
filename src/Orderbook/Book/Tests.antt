-- ===== src/Orderbook/Book/Tests.antt =====
-- A side of bids over a skip list, with whole prices and quantities.
use market_tick_aggregator.Prelude.{ℕ, ◌≡◌, Bool, true, [], ◌∷◌, none, nat_eq, ◌==◌, length}
use market_tick_aggregator.Prelude.Assoc.{lookup}
use market_tick_aggregator.Orderbook.OrderedTree.{Levels, OrderedTree, first}
use market_tick_aggregator.Orderbook.OrderedTree.Whole.{nat_order}
use market_tick_aggregator.Orderbook.SkipList.Tree.{skip_list_tree}
use market_tick_aggregator.Orderbook.Book.{
  bid, upsert_all, new_tree_book_side, top_n, best, depth, TreeBookSide,
}
use market_tick_aggregator.Orderbook.Book.Quotes.{upsert_all-quoted, BestFirst, quoted, take}

abbrev tree : OrderedTree ℕ ℕ
tree = skip_list_tree (λ n. true)

abbrev zero_quantity : ℕ → Bool
zero_quantity q = q == 0

-- the bid at 5 is taken back, and the one at 3 changes
abbrev quotes : Levels ℕ ℕ
quotes = (5, 1) ∷ (3, 2) ∷ (4, 6) ∷ (3, 7) ∷ (5, 0) ∷ []

abbrev bids : TreeBookSide tree zero_quantity
bids = upsert_all tree zero_quantity quotes (new_tree_book_side tree zero_quantity bid)

upsert_all-quoted_example :
    (levels : Levels ℕ ℕ) × BestFirst bid levels
    × ((k : ℕ) → lookup k levels ≡ quoted zero_quantity k quotes none)
    × ((n : ℕ) → top_n tree zero_quantity n bids ≡ take n levels)
    × (best tree zero_quantity bids ≡ first levels)
    × (depth tree zero_quantity bids ≡ length levels)
upsert_all-quoted_example = upsert_all-quoted tree zero_quantity bid quotes
