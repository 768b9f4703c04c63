-- ===== src/Normalizer/Backpressure/Tests.antt =====
-- Two records, then none.
use market_tick_aggregator.Prelude.{List, [], ◌∷◌, arith}
use market_tick_aggregator.Kafka.{TopicPartition, tp_eq}
use market_tick_aggregator.Normalizer.Backpressure.{new_controller}
use market_tick_aggregator.Normalizer.Backpressure.Hysteresis.{
  Event, enqueue, dequeue, run, Balanced, run-Balanced,
}

abbrev trades : TopicPartition
trades = record { topic = 116 ∷ []; partition = 0 }

-- paused by the second record, resumed by the second dequeue
abbrev events : List Event
events = enqueue trades ∷ enqueue trades ∷ dequeue ∷ dequeue ∷ []

run-Balanced_example :
    Balanced (run [] (new_controller 1 1) events).0 (run [] (new_controller 1 1) events).1
run-Balanced_example = run-Balanced 1 1 events (omega arith)
