-- ===== src/Aggregator/Windows.antt =====
-- aggregator/worker/worker.go: a symbol's state, as ProcessTick and FlushWindow change it. Of the
-- metrics of aggregator/internal/aggmetrics a window has the two rolling ones and volume.go. The time of
-- the newest ingest, which no checkpoint holds, is left out.
use market_tick_aggregator.Prelude.{
  ℕ, Bool, false, List, [], ◌∷◌, Option, none, some, map, ◌==◌, nat_eq, list_eq, if◌then◌else◌,
}
use market_tick_aggregator.Prelude.Assoc.{Assoc}
use market_tick_aggregator.Kafka.{Text, TopicPartition, tp_eq}
use market_tick_aggregator.SrcOffset.Seen.Set.{SeenSet, check_set}
use market_tick_aggregator.Aggregator.Rolling.{Float64, Tick}
use market_tick_aggregator.Aggregator.Rolling.Volume.{RollingVolume}
use market_tick_aggregator.Aggregator.Rolling.Volume
use market_tick_aggregator.Aggregator.Rolling.Vwap.{RollingVwap}
use market_tick_aggregator.Aggregator.Rolling.Vwap
use market_tick_aggregator.Aggregator.Checkpoint.{Effects}

pub data Metric (F : Type 0) : Type 0 where
  rolling_volume : RollingVolume F → Metric F
  rolling_vwap : RollingVwap F → Metric F
  tumbling_volume : F → Metric F

-- `windows` gives the metrics of each window's id.
pub record WindowState (F : Type 0) : Type 0 where
  pub windows : Assoc Text (List (Metric F))
  pub seen : SeenSet TopicPartition

-- A record's tick, and its source coordinate, if it has a header that can be decoded.
pub record SourcedTick (F : Type 0) : Type 0 where
  pub source : Option (TopicPartition × ℕ)
  pub tick : Tick F

-- The answer of Check, and the set that it leaves. A tick without a source is applied, unchecked.
abbrev pub check_source :
    Option (TopicPartition × ℕ) → SeenSet TopicPartition → Bool × SeenSet TopicPartition
check_source none seen = (false, seen)
check_source (some (k, off)) seen = check_set seen k off

module _ {F : Type 0} ⦃f : Float64 F⦄ where
  unfoldable pub update_metric : Tick F → Metric F → Metric F
  update_metric t (rolling_volume r) = rolling_volume (Volume.update t r)
  update_metric t (rolling_vwap r) = rolling_vwap (Vwap.update t r)
  update_metric t (tumbling_volume v) = tumbling_volume (f.plus v t.volume)

  -- Apply, less what it writes to the aggregate, and Reset.
  unfoldable pub flush_metric : Metric F → Metric F
  flush_metric (rolling_volume r) = rolling_volume (Volume.apply (λ now before seconds. tt) r).0
  flush_metric (rolling_vwap r) = rolling_vwap r
  flush_metric (tumbling_volume v) = tumbling_volume f.zero_float

  unfoldable pub update_windows :
      Tick F → Assoc Text (List (Metric F)) → Assoc Text (List (Metric F))
  update_windows t [] = []
  update_windows t ((id, metrics) ∷ windows) =
      (id, map (update_metric t) metrics) ∷ update_windows t windows

  -- An id that is not there changes nothing.
  unfoldable pub flush_window_of :
      Text → Assoc Text (List (Metric F)) → Assoc Text (List (Metric F))
  flush_window_of id [] = []
  flush_window_of id ((other, metrics) ∷ windows) =
      let rest = flush_window_of id windows in
      if other == id then (other, map flush_metric metrics) ∷ windows else (other, metrics) ∷ rest

  abbrev pub window_effects : Effects (WindowState F) (SourcedTick F)
  window_effects = record {
    already_applied = λ t s. (check_source t.source s.seen).0;
    update = λ t s. record {
      windows = update_windows t.tick s.windows;
      seen = (check_source t.source s.seen).1;
    };
    flush = λ id s. record s { windows = flush_window_of id s.windows };
  }
