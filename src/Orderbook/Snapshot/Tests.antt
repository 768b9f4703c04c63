-- ===== src/Orderbook/Snapshot/Tests.antt =====
-- A symbol whose book has no level yet, with whole prices, in skip lists.
use market_tick_aggregator.Prelude.{
  ℕ, ◌≡◌, refl, Bool, true, List, [], ◌∷◌, none, some, nat_eq, ◌==◌,
}
use market_tick_aggregator.Orderbook.OrderedTree.{OrderedTree}
use market_tick_aggregator.Orderbook.OrderedTree.Whole.{nat_order}
use market_tick_aggregator.Orderbook.SkipList.Tree.{skip_list_tree}
use market_tick_aggregator.Orderbook.Worker.{new_state}
use market_tick_aggregator.Orderbook.Snapshot.{
  Slot, Event, book_update, snapshot_request, snapshot_execute, persist_round, run,
  clone_light_weight,
}
use market_tick_aggregator.Orderbook.Snapshot.Stuck.{requested_empty-Stuck}
use market_tick_aggregator.Orderbook.Book.{top_n, top_n_loop, new_order_book, new_tree_book_side}
use market_tick_aggregator.Orderbook.SkipList.{
  descending, iterate_back, new_skip_list, ascending, iterate,
}
use market_tick_aggregator.Orderbook.Worker.{buffer_key}
use market_tick_aggregator.Orderbook.Worker.{append_lower_ascii}

abbrev tree : OrderedTree ℕ ℕ
tree = skip_list_tree (λ n. true)

abbrev zero_quantity : ℕ → Bool
zero_quantity q = q == 0

-- b:b, of the symbol B of the exchange b
abbrev symbol_key : List ℕ
symbol_key = 98 ∷ 58 ∷ 98 ∷ []

abbrev empty_book : Slot tree zero_quantity 3 symbol_key
empty_book = record {
  state = new_state tree zero_quantity (98 ∷ []) (66 ∷ []);
  snapshot = none;
  channel = [];
  persisted_events = 0;
  saved = [];
}

-- the book fills up after the request, and the snapshot is requested again
abbrev later : List (Event tree zero_quantity 3 symbol_key)
later =
    book_update (record {
      partition = 0;
      offset = 4;
      headers = none;
      exchange = 98 ∷ [];
      symbol = 66 ∷ [];
      bids = (5, 1) ∷ [];
      asks = (6, 1) ∷ [];
      ts_ms = 0;
    })
    ∷ snapshot_request 7
    ∷ snapshot_execute true
    ∷ persist_round true true
    ∷ []

requested_empty-Stuck_example :
    (slot' : Slot tree zero_quantity 3 symbol_key) × (run tree zero_quantity 3 symbol_key
        (snapshot_request 2 ∷ later)
        empty_book
      ≡ some slot')
    × (slot'.state.snapshot_pending ≡ true)
    × (slot'.snapshot
        ≡ some (clone_light_weight tree zero_quantity 3 symbol_key 2 empty_book.state))
    × (slot'.saved ≡ [])
unfolding new_state top_n top_n_loop new_order_book new_tree_book_side descending iterate_back
    new_skip_list ascending iterate buffer_key append_lower_ascii
requested_empty-Stuck_example =
    requested_empty-Stuck tree zero_quantity 3 symbol_key empty_book [] 2 later
      (refl, (tt, (tt, (tt, tt)))) refl refl refl refl refl refl
