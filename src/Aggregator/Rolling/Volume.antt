-- ===== src/Aggregator/Rolling/Volume.antt =====
-- aggregator/internal/aggmetrics/rolling_volume_acc.go
use market_tick_aggregator.Prelude.{
  ℕ, zero, suc, ◌+◌, ◌-◌, ◌*◌, ◌/◌, ◌%◌, List, [], ◌∷◌, Option, none, some, if◌then◌else◌, ltb,
  length, ◌==◌, nat_eq, ◌||◌,
}
use market_tick_aggregator.Aggregator.Rolling.{Float64, Tick, make_buckets, bucket_at, put_bucket}

-- `prev_running_total` is only used by Apply.
pub record RollingVolume (F : Type 0) : Type 0 where
  pub volume_buckets : List F
  pub idx : ℕ
  pub running_total : F
  pub prev_running_total : F
  pub bucket_size_ms : ℕ
  pub last_bucket_ts_ms : ℕ
  pub flush_cadency_ms : ℕ

module _ {F : Type 0} ⦃f : Float64 F⦄ where
  -- A panic is none.
  unfoldable pub new_rolling_volume : ℕ → ℕ → ℕ → Option (RollingVolume F)
  new_rolling_volume duration_ms bucket_size_ms flush_cadency_ms =
      if (bucket_size_ms == 0) || (duration_ms / bucket_size_ms == 0)
      then none
      else some (record {
        volume_buckets = make_buckets (duration_ms / bucket_size_ms) f.zero_float;
        idx = 0;
        running_total = f.zero_float;
        prev_running_total = f.zero_float;
        bucket_size_ms = bucket_size_ms;
        last_bucket_ts_ms = 0;
        flush_cadency_ms = flush_cadency_ms;
      })

  -- the body of the loop: on to the next bucket
  unfoldable pub next_bucket : RollingVolume F → RollingVolume F
  next_bucket r =
      let i = (r.idx + 1) % length r.volume_buckets in
      record r {
        idx = i;
        running_total = f.minus r.running_total (bucket_at f.zero_float i r.volume_buckets);
        volume_buckets = put_bucket i f.zero_float r.volume_buckets;
      }

  unfoldable pub advance : ℕ → RollingVolume F → RollingVolume F
  advance zero r = r
  advance (suc steps) r = advance steps (next_bucket r)

  unfoldable pub first_tick : ℕ → RollingVolume F → RollingVolume F
  first_tick now r = if r.last_bucket_ts_ms == 0 then record r { last_bucket_ts_ms = now } else r

  unfoldable pub add_volume : F → RollingVolume F → RollingVolume F
  add_volume volume r = record r {
    volume_buckets =
        put_bucket r.idx (f.plus (bucket_at f.zero_float r.idx r.volume_buckets) volume)
          r.volume_buckets;
    running_total = f.plus r.running_total volume;
  }

  -- LastBucketTsMs += steps * BucketSizeMs: the division of a negative number rounds to zero, and no
  -- bucket is passed for negative steps.
  unfoldable pub move_clock : ℕ → RollingVolume F → RollingVolume F
  move_clock now r =
      let size = r.bucket_size_ms in
      let last = r.last_bucket_ts_ms in
      if ltb now last
      then record r { last_bucket_ts_ms = last - (last - now) / size * size }
      else record (advance ((now - last) / size) r) {
        last_bucket_ts_ms = last + (now - last) / size * size;
      }

  unfoldable pub update : Tick F → RollingVolume F → RollingVolume F
  update t r = add_volume t.volume (move_clock t.event_ts_millis (first_tick t.event_ts_millis r))

  -- What Apply writes: the total and, if there was one at the last flush, the acceleration. The seconds
  -- are an integer division.
  unfoldable pub apply :
      {A : Type 0} → (F → F → ℕ → A) → RollingVolume F → RollingVolume F × F × Option A
  apply acceleration r = (
    record r { prev_running_total = r.running_total },
    r.running_total,
    if f.is_positive r.prev_running_total
        then some (acceleration r.running_total r.prev_running_total (r.flush_cadency_ms / 1000))
        else none,
  )

  unfoldable pub run : List (Tick F) → RollingVolume F → RollingVolume F
  run [] r = r
  run (t ∷ ticks) r = run ticks (update t r)
