-- ===== src/Orderbook/Worker/Tests.antt =====
-- Whole prices, in skip lists; two symbols on two partitions.
use market_tick_aggregator.Prelude.{
  ℕ, ◌-◌, ◌≡◌, refl, Bool, true, List, [], ◌∷◌, Option, none, some, nat_eq, list_eq, ◌==◌,
}
use market_tick_aggregator.Prelude.Assoc.{lookup}
use market_tick_aggregator.Orderbook.OrderedTree.{OrderedTree}
use market_tick_aggregator.Orderbook.OrderedTree.Whole.{nat_order}
use market_tick_aggregator.Orderbook.SkipList.Tree.{skip_list_tree}
use market_tick_aggregator.Orderbook.Worker.{
  DispatchRecord, StoredSnapshot, Worker, flush_book, new_state, restore_or_create_state,
}
use market_tick_aggregator.Orderbook.Worker.Highest.{process_all, highest, flush_book-highest}
use market_tick_aggregator.Orderbook.Worker.Keys.{written, restore_or_create_state-written}

abbrev tree : OrderedTree ℕ ℕ
tree = skip_list_tree (λ n. true)

abbrev zero_quantity : ℕ → Bool
zero_quantity q = q == 0

abbrev nothing_stored : List ℕ → StoredSnapshot ℕ ℕ
nothing_stored bytes = record {
  partition_offsets = none;
  snapshot_ts_ms = 0;
  stored_bids = [];
  stored_asks = [];
}

abbrev record_at : ℕ → ℕ → DispatchRecord ℕ ℕ
record_at p off = record {
  partition = p;
  offset = off;
  headers = none;
  exchange = 98 ∷ [];
  symbol = 66 ∷ [];
  bids = (5, 1) ∷ [];
  asks = (6, 1) ∷ [];
  ts_ms = 0;
}

-- the second record of partition 0 is older than the first
abbrev updates : List (Option ℕ × DispatchRecord ℕ ℕ)
updates = (none, record_at 0 4) ∷ (some 0, record_at 0 3) ∷ (none, record_at 1 8) ∷ []

highest_result : highest tree zero_quantity 0 updates ≡ some 4
unfolding highest
highest_result = refl

flush_book-highest_example :
    (w : Worker tree zero_quantity) × (process_all tree zero_quantity nothing_stored updates
        (record { buffer_key_buf = []; orderbook_state_map = [] })
      ≡ some w)
    × ((p : ℕ)
        → lookup p (flush_book tree zero_quantity (λ a b. a - b) (λ book. true) 3 w).2
          ≡ highest tree zero_quantity p updates)
flush_book-highest_example =
    flush_book-highest tree zero_quantity nothing_stored (λ a b. a - b) (λ book. true) 3 updates []

-- the symbol B of the exchange b, whose snapshot was written as b:b
restore_or_create_state-written_example :
    restore_or_create_state tree zero_quantity nothing_stored
      (written ((98 ∷ [], 66 ∷ [], 1 ∷ []) ∷ []))
      (98 ∷ [])
      (66 ∷ [])
    ≡ new_state tree zero_quantity (98 ∷ []) (66 ∷ [])
restore_or_create_state-written_example =
    restore_or_create_state-written tree zero_quantity nothing_stored
      ((98 ∷ [], 66 ∷ [], 1 ∷ []) ∷ []) (98 ∷ []) (66 ∷ [])
