-- ===== src/Normalizer/Backpressure.antt =====
-- normalizer/backpressure/backpressure.go: one worker's queue depth, and the pauses of its fetches. The
-- thresholds, which the code takes from the configuration, are parameters.
pub mod Hysteresis
mod Tests
use market_tick_aggregator.Prelude.{
  ℕ, ◌+◌, ◌-◌, Bool, true, false, not, ◌&&◌, List, [], ◌∷◌, ◌++◌, ltb, if◌then◌else◌, contains,
  ◌==◌,
}
use market_tick_aggregator.Kafka.{TopicPartition, tp_eq}

-- `partitions` is a set: a list without repeats.
pub record Controller : Type 0 where
  pub depth : ℕ
  pub paused : Bool
  pub high_threshold : ℕ
  pub low_threshold : ℕ
  pub partitions : List TopicPartition

-- What the Kafka client is told.
pub data Call : Type 0 where
  pause_fetch resume_fetch : List TopicPartition → Call

unfoldable pub new_controller : ℕ → ℕ → Controller
new_controller high low = record {
  depth = 0;
  paused = false;
  high_threshold = high;
  low_threshold = low;
  partitions = [];
}

unfoldable pub with_partition : TopicPartition → List TopicPartition → List TopicPartition
with_partition tp tps = if contains tp tps then tps else tp ∷ tps

unfoldable pub on_enqueue : TopicPartition → Controller → Controller × List Call
on_enqueue tp c =
    let c' = record c { partitions = with_partition tp c.partitions; depth = c.depth + 1 } in
    if ltb c'.high_threshold c'.depth && not c'.paused
    then (record c' { paused = true }, pause_fetch c'.partitions ∷ [])
    else (c', [])

-- A depth below zero is set to zero.
unfoldable pub on_dequeue : Controller → Controller × List Call
on_dequeue c =
    let c' = record c { depth = c.depth - 1 } in
    if ltb c'.depth c'.low_threshold && c'.paused
    then (record c' { paused = false }, resume_fetch c'.partitions ∷ [])
    else (c', [])
