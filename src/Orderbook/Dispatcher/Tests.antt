-- ===== src/Orderbook/Dispatcher/Tests.antt =====
-- One worker or two, whole prices, in skip lists; updates without levels.
use market_tick_aggregator.Prelude.{
  ℕ, ◌-◌, ◌≡◌, ◌≤◌, refl, inl, arith, Bool, true, List, [], ◌∷◌, none, some, nat_eq, ◌==◌,
}
use market_tick_aggregator.Prelude.Assoc.{Assoc, lookup, insert}
use market_tick_aggregator.Orderbook.Book.{
  new_order_book, new_tree_book_side, top_n, top_n_loop, upsert_all,
}
use market_tick_aggregator.Orderbook.SkipList.{
  ascending, descending, iterate, iterate_back, new_skip_list,
}
use market_tick_aggregator.Orderbook.Worker.{
  append_lower_ascii, best_levels_for_flush, buffer_key, flushed_book, note_max, restored_state,
  view, write_key, DispatchRecord, StoredSnapshot, process_book_update, update_entry, apply_update,
  restore_or_create_state, new_state, flush_book, ack_offset_map, flush_all, flush_symbol_state,
}
use market_tick_aggregator.Orderbook.OrderedTree.{OrderedTree}
use market_tick_aggregator.Orderbook.OrderedTree.Whole.{nat_order}
use market_tick_aggregator.Orderbook.SkipList.Tree.{skip_list_tree}
use market_tick_aggregator.Orderbook.Coordinator.{
  Ack, CommitRequest, flush_ack, new_coordinator, start_epoch, handle_flush_ack, accept_ack,
  take_ack, remove, commit_epoch_offsets, min_offsets, next_offsets, note_offsets, note_min,
}
use market_tick_aggregator.Orderbook.Coordinator.Acks.{after_acks, first_ack}
use market_tick_aggregator.Orderbook.Dispatcher.{
  Arrival, record_arrived, epoch_tick, fnv32a, run_arrivals, arrive, dispatch, worker_of,
  send_flush, participants_from, fnv_write, xor,
}
use market_tick_aggregator.Orderbook.Dispatcher.Queue.{ahead_of, behind, records_of}
use market_tick_aggregator.Orderbook.Dispatcher.Commit.{commit-never_passes, acked_after, lookups}
use market_tick_aggregator.Orderbook.Worker.Highest.{process_all}

-- of the letter a
fnv32a_result : fnv32a (97 ∷ []) ≡ 3826002220
unfolding fnv32a fnv_write xor
fnv32a_result = refl

abbrev tree : OrderedTree ℕ ℕ
tree = skip_list_tree (λ n. true)

abbrev zero_quantity : ℕ → Bool
zero_quantity q = q == 0

abbrev nothing_stored : List ℕ → StoredSnapshot ℕ ℕ
nothing_stored bytes = record {
  partition_offsets = none;
  snapshot_ts_ms = 0;
  stored_bids = [];
  stored_asks = [];
}

abbrev record_at : ℕ → DispatchRecord ℕ ℕ
record_at off = record {
  partition = 0;
  offset = off;
  headers = none;
  exchange = 98 ∷ [];
  symbol = 66 ∷ [];
  bids = [];
  asks = [];
  ts_ms = 0;
}

-- the flush lies between two records of a partition
abbrev arrivals : List (Arrival ℕ ℕ)
arrivals =
    record_arrived true (record_at 4)
    ∷ epoch_tick 1 (true ∷ [])
    ∷ record_arrived true (record_at 5)
    ∷ []

abbrev ack_of : ℕ → Assoc ℕ ℕ → Ack
ack_of worker offsets = record { epoch = 1; worker_id = worker; partition_offsets = offsets }

abbrev request : CommitRequest
request = record { event = flush_ack; epoch = 1; offsets = (0, 4) ∷ []; uncommitted = (0, 5) ∷ [] }

acked :
    first_ack 1 0 (ack_of 0 ((0, 4) ∷ []) ∷ [])
    ≡ acked_after tree zero_quantity nothing_stored
        (λ a b. a - b)
        (λ book. true)
        3
        (lookups [] (record_at 4 ∷ []))
unfolding first_ack acked_after lookups process_all process_book_update update_entry apply_update
    restore_or_create_state new_state lookup flush_book ack_offset_map flush_all flush_symbol_state
    new_order_book new_tree_book_side top_n top_n_loop upsert_all ascending descending iterate
    iterate_back new_skip_list append_lower_ascii buffer_key note_max write_key view
    market_tick_aggregator.Orderbook.Worker.note_offsets insert
acked = refl

commit-never_passes_example : (off : ℕ) × (lookup 0 request.uncommitted ≡ some off) × (off ≤ 5)
unfolding ahead_of run_arrivals arrive dispatch worker_of fnv32a fnv_write xor send_flush behind
    records_of lookup new_coordinator handle_flush_ack start_epoch insert lookups participants_from
    accept_ack commit_epoch_offsets min_offsets next_offsets note_min note_offsets remove take_ack
commit-never_passes_example =
    commit-never_passes tree zero_quantity nothing_stored (λ a b. a - b) (λ book. true) 3 [] 1 0 1 0
      arrivals (true ∷ []) (record_at 4) (record_at 5) new_coordinator [] (ack_of 0 ((0, 4) ∷ []))
      request (((λ same. omega arith), tt), (tt, tt)) (inl refl) (inl refl) refl refl refl refl refl
      acked

-- A worker that had nothing of the partition before the flush is not asked for it: the record 5 that
-- waits in its channel is passed by the offset 6 that the other worker acked.
passed_unseen :
    (handle_flush_ack
      (ack_of 1 ((0, 6) ∷ []))
      (after_acks (start_epoch 0 1 (0 ∷ 1 ∷ []) new_coordinator) (ack_of 0 [] ∷ []))).1
    ≡ record { event = flush_ack; epoch = 1; offsets = (0, 6) ∷ []; uncommitted = (0, 7) ∷ [] } ∷ []
unfolding handle_flush_ack lookup start_epoch new_coordinator insert accept_ack take_ack remove
    commit_epoch_offsets min_offsets next_offsets note_offsets note_min
passed_unseen = refl
