-- ===== src/Orderbook/Coordinator/Tests.antt =====
-- Two workers, one epoch.
use market_tick_aggregator.Prelude.{
  ℕ, ◌≤◌, ◌≡◌, refl, true, List, [], ◌∷◌, none, some, arith, nat_eq, contains, is_some,
}
use market_tick_aggregator.Prelude.Assoc.{Assoc, lookup}
use market_tick_aggregator.Orderbook.Coordinator.{
  EpochState, CommitCoordinator, Ack, CommitRequest, CommitResult, new_coordinator, start_epoch,
  handle_flush_ack, flush_ack, request_failed, on_response, post_commit_process,
  check_epoch_timeouts_at, min_offsets,
}
use market_tick_aggregator.Orderbook.Coordinator.Minimum.{
  lookup-min_offsets, AtOrBelow, smallest, offsets_in, next,
}
use market_tick_aggregator.Orderbook.Coordinator.Acks.{after_acks, first_ack}
use market_tick_aggregator.Orderbook.Coordinator.Commit.{commit-first_ack, last_ack-commits}
use market_tick_aggregator.Orderbook.Coordinator.Expiry.{
  lookup-check_epoch_timeouts, on_response-ends_epoch,
}
use market_tick_aggregator.Orderbook.Coordinator.Minimum.{acked_offsets}
use market_tick_aggregator.Prelude.Assoc.{insert}
use market_tick_aggregator.Orderbook.Coordinator.{accept_ack}
use market_tick_aggregator.Orderbook.Coordinator.{take_ack}
use market_tick_aggregator.Orderbook.Coordinator.{remove}
use market_tick_aggregator.Orderbook.Coordinator.{commit_epoch_offsets}
use market_tick_aggregator.Orderbook.Coordinator.{next_offsets}
use market_tick_aggregator.Orderbook.Coordinator.{note_offsets}
use market_tick_aggregator.Orderbook.Coordinator.{note_min}

abbrev ack_of : ℕ → ℕ → Ack
ack_of w off = record { epoch = 1; worker_id = w; partition_offsets = (3, off) ∷ [] }

abbrev request : CommitRequest
request = record {
  event = flush_ack;
  epoch = 1;
  offsets = (3, 40) ∷ [];
  uncommitted = (3, 41) ∷ [];
}

-- worker 0 acks twice, worker 7 is a stranger; the newest ack first
abbrev older : List Ack
older = ack_of 0 90 ∷ ack_of 7 5 ∷ ack_of 0 40 ∷ []

lookup-min_offsets_example :
    lookup 3 (min_offsets ((0, (3, 40) ∷ []) ∷ (1, (3, 55) ∷ []) ∷ []) []) ≡ some 40
unfolding smallest acked_offsets offsets_in
lookup-min_offsets_example = lookup-min_offsets 3 ((0, (3, 40) ∷ []) ∷ (1, (3, 55) ∷ []) ∷ [])

commit-first_ack_example :
    (request.epoch ≡ 1)
    × ((offs : Assoc ℕ ℕ) × (first_ack 1 0 (ack_of 1 55 ∷ older) ≡ some offs)
        × ((q : ℕ) → AtOrBelow (lookup q request.offsets) (smallest (offsets_in q offs))))
    × ((q : ℕ) → lookup q request.uncommitted ≡ next (lookup q request.offsets))
unfolding lookup new_coordinator handle_flush_ack start_epoch insert accept_ack take_ack remove
    commit_epoch_offsets min_offsets next_offsets note_offsets note_min
commit-first_ack_example =
    commit-first_ack 1000 1 0 (0 ∷ 1 ∷ []) new_coordinator older (ack_of 1 55) request refl refl
      refl refl

all_acked :
    (w : ℕ) → contains w (0 ∷ 1 ∷ []) ≡ true → is_some (first_ack 1 w (ack_of 1 55 ∷ older)) ≡ true
unfolding first_ack
all_acked w h = ground arith

last_ack-commits_example :
    (r : CommitRequest) × ((handle_flush_ack
        (ack_of 1 55)
        (after_acks (start_epoch 1000 1 (0 ∷ 1 ∷ []) new_coordinator) older)).1
      ≡ r ∷ [])
unfolding lookup new_coordinator first_ack
last_ack-commits_example =
    last_ack-commits 1000 1 (0 ∷ 1 ∷ []) new_coordinator older (ack_of 1 55) refl refl refl refl
      all_acked

abbrev running : EpochState
running = record { created_at = 1000; participants = 1 ∷ []; acks = [] }

abbrev busy : CommitCoordinator
busy = record { epoch_map = (1, running) ∷ []; epoch_timeout = 120000; last_committed_epoch = 0 }

lookup-check_epoch_timeouts_example :
    lookup 1 (check_epoch_timeouts_at 121000 busy).0.epoch_map ≡ none
unfolding lookup
lookup-check_epoch_timeouts_example = lookup-check_epoch_timeouts 121000 1 busy (refl, tt)

-- the broker refuses the commit
abbrev refused : CommitResult
refused = record { event = flush_ack; epoch = 1; offsets = []; failed = true }

on_response-ends_epoch_example :
    (refused.epoch ≡ 1)
    × (lookup 1 (post_commit_process (true ∷ []) refused busy).0.epoch_map ≡ none)
    × (1 ≤ (post_commit_process (true ∷ []) refused busy).0.last_committed_epoch)
unfolding on_response
on_response-ends_epoch_example =
    on_response-ends_epoch (true ∷ []) request request_failed refused busy refl
