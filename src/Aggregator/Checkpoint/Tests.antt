-- ===== src/Aggregator/Checkpoint/Tests.antt =====
-- One symbol with a rolling and a tumbling volume; numbers that are whole do not round.
use market_tick_aggregator.Prelude.{
  ℕ, ◌+◌, ◌-◌, ◌*◌, ltb, true, [], ◌∷◌, List, some, nat_eq, list_eq,
}
use market_tick_aggregator.Kafka.{Text, tp_eq}
use market_tick_aggregator.Aggregator.Rolling.{Float64}
use market_tick_aggregator.Aggregator.Windows.{
  WindowState, SourcedTick, rolling_volume, tumbling_volume,
}
use market_tick_aggregator.Aggregator.Checkpoint.Run.{
  Event, tick, flush_due, checkpoint_due, batch_ends,
}

instance abbrev whole_numbers : Float64 ℕ
whole_numbers = record {
  zero_float = 0;
  plus = ◌+◌;
  minus = ◌-◌;
  times = ◌*◌;
  is_positive = λ n. ltb 0 n;
}

abbrev fresh : Text → WindowState ℕ
fresh symbol = record {
  windows =
      (
        7 ∷ [],
        rolling_volume (record {
          volume_buckets = 0 ∷ 0 ∷ [];
          idx = 0;
          running_total = 0;
          prev_running_total = 0;
          bucket_size_ms = 10;
          last_bucket_ts_ms = 0;
          flush_cadency_ms = 1000;
        })
            ∷ tumbling_volume 0
            ∷ [],
      )
      ∷ [];
  seen = [];
}

abbrev traded : ℕ → SourcedTick ℕ
traded off = record {
  source = some (record { topic = 1 ∷ []; partition = 0 }, off);
  tick = record { price = 2; volume = 5; event_ts_millis = 100 + off };
}

-- The tick at 3 is in the checkpoint that was acked. A copy of it and the tick at 4 come later.
abbrev events : List (Event Text (SourcedTick ℕ))
events =
    tick (9 ∷ []) (traded 3)
    ∷ checkpoint_due [] true
    ∷ tick (9 ∷ []) (traded 3)
    ∷ tick (9 ∷ []) (traded 4)
    ∷ flush_due (7 ∷ [])
    ∷ batch_ends (true ∷ [])
    ∷ []
