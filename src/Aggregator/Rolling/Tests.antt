-- ===== src/Aggregator/Rolling/Tests.antt =====
-- A window of two buckets of ten milliseconds, with whole numbers, which do not round.
use market_tick_aggregator.Prelude.{
  ℕ, ◌≡◌, ◌<◌, refl, ltb, ◌+◌, ◌-◌, ◌*◌, List, [], ◌∷◌, length, arith, nat_eq,
}
use market_tick_aggregator.Aggregator.Rolling.{Float64, Tick}
use market_tick_aggregator.Aggregator.Rolling.Volume.{RollingVolume, new_rolling_volume}
use market_tick_aggregator.Aggregator.Rolling.Volume
use market_tick_aggregator.Aggregator.Rolling.Vwap.{RollingVwap, empty_bucket, new_rolling_vwap}
use market_tick_aggregator.Aggregator.Rolling.Vwap
use market_tick_aggregator.Aggregator.Rolling.Inside.{run-inside}
use market_tick_aggregator.Aggregator.Rolling.Agree.{Agree, both-Agree}
use market_tick_aggregator.Aggregator.Rolling.{bucket_at}
use market_tick_aggregator.Aggregator.Rolling.{put_bucket}
use market_tick_aggregator.Aggregator.Rolling.{make_buckets}

instance abbrev whole_numbers : Float64 ℕ
whole_numbers = record {
  zero_float = 0;
  plus = ◌+◌;
  minus = ◌-◌;
  times = ◌*◌;
  is_positive = λ n. ltb 0 n;
}

abbrev tick_at : ℕ → ℕ → Tick ℕ
tick_at now volume = record { price = 2; volume = volume; event_ts_millis = now }

abbrev volume_ring : RollingVolume ℕ
volume_ring = record {
  volume_buckets = 0 ∷ 0 ∷ [];
  idx = 0;
  running_total = 0;
  prev_running_total = 0;
  bucket_size_ms = 10;
  last_bucket_ts_ms = 0;
  flush_cadency_ms = 1000;
}

abbrev vwap_ring : RollingVwap ℕ
vwap_ring = record {
  buckets = empty_bucket ∷ empty_bucket ∷ [];
  idx = 0;
  bucket_size_ms = 10;
  last_bucket_ts_ms = 0;
  total_sum_pv = 0;
  total_sum_v = 0;
}

abbrev in_order : List (Tick ℕ)
in_order = tick_at 100 5 ∷ tick_at 115 3 ∷ tick_at 125 1 ∷ []

-- the second tick is late by two buckets
abbrev late : List (Tick ℕ)
late = tick_at 100 5 ∷ tick_at 80 1 ∷ tick_at 100 1 ∷ []

-- the ring of volumes then forgets both buckets
late_volume : (Volume.run late volume_ring).running_total ≡ 1
unfolding Volume.run Volume.update Volume.add_volume Volume.move_clock Volume.first_tick
    Volume.advance Volume.next_bucket bucket_at put_bucket
late_volume = refl

-- and the other one none
late_vwap : (Vwap.run late vwap_ring).total_sum_v ≡ 7
unfolding Vwap.run Vwap.update Vwap.add_trade Vwap.move_clock Vwap.first_tick
late_vwap = refl

run-inside_example :
    (length (Volume.run late volume_ring).volume_buckets ≡ 2)
    × ((Volume.run late volume_ring).idx < length (Volume.run late volume_ring).volume_buckets)
unfolding new_rolling_volume make_buckets
run-inside_example = run-inside 20 10 1000 volume_ring late refl

both-Agree_example : Agree (Volume.run in_order volume_ring) (Vwap.run in_order vwap_ring)
unfolding new_rolling_volume new_rolling_vwap make_buckets
both-Agree_example =
    both-Agree 20 10 1000 volume_ring vwap_ring in_order refl refl
      (omega arith, (omega arith, (omega arith, tt)))
