-- ===== src/Aggregator/Rolling/Vwap.antt =====
-- aggregator/internal/aggmetrics/rolling_vwap.go
use market_tick_aggregator.Prelude.{
  ℕ, zero, suc, ◌+◌, ◌-◌, ◌*◌, ◌/◌, ◌%◌, List, [], ◌∷◌, Option, none, some, if◌then◌else◌, leb,
  length, ◌==◌, nat_eq, ◌||◌, ◌&&◌,
}
use market_tick_aggregator.Aggregator.Rolling.{Float64, Tick, make_buckets, bucket_at, put_bucket}

pub record VwapBucket (F : Type 0) : Type 0 where
  pub sum_pv : F
  pub sum_v : F

pub record RollingVwap (F : Type 0) : Type 0 where
  pub buckets : List (VwapBucket F)
  pub idx : ℕ
  pub bucket_size_ms : ℕ
  pub last_bucket_ts_ms : ℕ
  pub total_sum_pv : F
  pub total_sum_v : F

module _ {F : Type 0} ⦃f : Float64 F⦄ where
  abbrev pub empty_bucket : VwapBucket F
  empty_bucket = record { sum_pv = f.zero_float; sum_v = f.zero_float }

  -- A panic is none.
  unfoldable pub new_rolling_vwap : ℕ → ℕ → Option (RollingVwap F)
  new_rolling_vwap duration_ms bucket_size_ms =
      if (bucket_size_ms == 0) || (duration_ms / bucket_size_ms == 0)
      then none
      else some (record {
        buckets = make_buckets (duration_ms / bucket_size_ms) empty_bucket;
        idx = 0;
        bucket_size_ms = bucket_size_ms;
        last_bucket_ts_ms = 0;
        total_sum_pv = f.zero_float;
        total_sum_v = f.zero_float;
      })

  unfoldable pub next_bucket : RollingVwap F → RollingVwap F
  next_bucket r =
      let i = (r.idx + 1) % length r.buckets in
      record r {
        idx = i;
        total_sum_pv = f.minus r.total_sum_pv (bucket_at empty_bucket i r.buckets).sum_pv;
        total_sum_v = f.minus r.total_sum_v (bucket_at empty_bucket i r.buckets).sum_v;
        buckets = put_bucket i empty_bucket r.buckets;
      }

  unfoldable pub advance : ℕ → RollingVwap F → RollingVwap F
  advance zero r = r
  advance (suc steps) r = advance steps (next_bucket r)

  unfoldable pub first_tick : ℕ → RollingVwap F → RollingVwap F
  first_tick now r = if r.last_bucket_ts_ms == 0 then record r { last_bucket_ts_ms = now } else r

  unfoldable pub add_trade : F → F → RollingVwap F → RollingVwap F
  add_trade price volume r =
      let b = bucket_at empty_bucket r.idx r.buckets in
      record r {
        buckets =
            put_bucket r.idx
              (record {
                sum_pv = f.plus b.sum_pv (f.times price volume);
                sum_v = f.plus b.sum_v volume;
              })
              r.buckets;
        total_sum_pv = f.plus r.total_sum_pv (f.times price volume);
        total_sum_v = f.plus r.total_sum_v volume;
      }

  -- A tick that is late leaves the clock: elapsed is negative, and below BucketSizeMs.
  unfoldable pub move_clock : ℕ → RollingVwap F → RollingVwap F
  move_clock now r =
      let size = r.bucket_size_ms in
      let last = r.last_bucket_ts_ms in
      if leb last now && leb size (now - last)
      then record (advance ((now - last) / size) r) {
        last_bucket_ts_ms = last + (now - last) / size * size;
      }
      else r

  unfoldable pub update : Tick F → RollingVwap F → RollingVwap F
  update t r =
      add_trade t.price t.volume (move_clock t.event_ts_millis (first_tick t.event_ts_millis r))

  -- What Apply writes.
  unfoldable pub apply : {A : Type 0} → A → (F → F → A) → RollingVwap F → A
  apply nothing divide r =
      if f.is_positive r.total_sum_v then divide r.total_sum_pv r.total_sum_v else nothing

  unfoldable pub run : List (Tick F) → RollingVwap F → RollingVwap F
  run [] r = r
  run (t ∷ ticks) r = run ticks (update t r)
