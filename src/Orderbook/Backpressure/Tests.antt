-- ===== src/Orderbook/Backpressure/Tests.antt =====
-- One worker, two partitions.
use market_tick_aggregator.Prelude.{
  nat_eq, without, ◌≡◌, refl, true, false, List, [], ◌∷◌, some, arith,
}
use market_tick_aggregator.Prelude.Assoc.{insert, lookup}
use market_tick_aggregator.Orderbook.Backpressure.{
  WorkerState, Backpressure, init_backpressure, on_dequeue, on_enqueue, enqueued, dequeued, raise,
  add_partition, lower,
}
use market_tick_aggregator.Orderbook.Backpressure.Held.{
  Event, enqueue, dequeue, InBand, step, decided,
}
use market_tick_aggregator.Orderbook.Backpressure.Run.{
  run, HotWorker, held-HotWorker, worker-InBand,
}
use market_tick_aggregator.Prelude.Assoc.{insert, insert}

-- the second record makes worker 0 hot
abbrev events : List Event
events = enqueue 0 3 ∷ enqueue 0 4 ∷ []

held-HotWorker_example : HotWorker 3 (run [] (init_backpressure 1 1) events).1.workers
unfolding run on_enqueue init_backpressure enqueued lookup insert raise add_partition
held-HotWorker_example = held-HotWorker 1 1 events 3 (omega arith) refl

abbrev hot_worker : WorkerState
hot_worker = record { depth = 2; hot = true; partitions = 4 ∷ 3 ∷ [] }

worker-InBand_example : InBand 1 1 hot_worker
unfolding lookup run on_enqueue init_backpressure enqueued insert add_partition
worker-InBand_example = worker-InBand 1 1 events 0 hot_worker (omega arith) refl

-- Workers 0 and 1 are hot; worker 1 gets partition 3 only then, and cools. Partition 3 is fetched
-- again although worker 0, which has it, is still hot.
abbrev resumed_early : List Event
resumed_early =
    enqueue 0 3
    ∷ enqueue 0 3
    ∷ enqueue 1 4
    ∷ enqueue 1 4
    ∷ enqueue 1 3
    ∷ dequeue 1
    ∷ dequeue 1
    ∷ dequeue 1
    ∷ []

resumed_early_held : (run [] (init_backpressure 1 1) resumed_early).0 ≡ []
unfolding run on_dequeue lookup on_enqueue init_backpressure enqueued insert dequeued without raise
    add_partition lower
resumed_early_held = refl

resumed_early_hot :
    lookup 0 (run [] (init_backpressure 1 1) resumed_early).1.workers
    ≡ some (record { depth = 2; hot = true; partitions = 3 ∷ [] })
unfolding run on_dequeue lookup on_enqueue init_backpressure enqueued insert dequeued without raise
    add_partition lower
resumed_early_hot = refl

abbrev hot_at_two : Backpressure
hot_at_two = record {
  workers = (0, record { depth = 1; hot = false; partitions = 3 ∷ [] }) ∷ [];
  hot_count = [];
  high_threshold = 1;
  low_threshold = 2;
}

-- Worker 0 becomes hot and cools at once. If the client gets the resume before the pause, which was
-- decided first, partition 3 stays paused although no worker is hot.
overtaken :
    let (hot, pause) = step hot_at_two (enqueue 0 3) in
    let (cool, resume) = step hot (dequeue 0) in
    (decided (decided [] resume) pause ≡ 3 ∷ [])
    × (lookup 0 cool.workers ≡ some (record { depth = 1; hot = false; partitions = 3 ∷ [] }))
unfolding on_enqueue on_dequeue lookup insert enqueued dequeued raise lower add_partition without
overtaken = (refl, refl)
