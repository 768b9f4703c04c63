-- ===== src/Aggregator/Rolling/Agree.antt =====
-- The two rings pass the same buckets while no tick is late.
use market_tick_aggregator.Prelude.{
  ℕ, zero, suc, ◌+◌, ◌-◌, ◌/◌, ◌%◌, ◌≤◌, ◌≡◌, refl, ap, true, false, List, [], ◌∷◌, Option, some,
  length, ltb, arith, Bool-cases, inl, inr, ◌==◌, nat_eq, ◌||◌, leb, or_else,
}
use native.Mathlib.Nat.{div-mul-le_self, div-eq_of_lt}
use market_tick_aggregator.Aggregator.Rolling.{Float64, Tick, make_buckets, bucket_at, put_bucket}
use market_tick_aggregator.Aggregator.Rolling.Volume.{RollingVolume, new_rolling_volume}
use market_tick_aggregator.Aggregator.Rolling.Volume
use market_tick_aggregator.Aggregator.Rolling.Vwap.{
  RollingVwap, VwapBucket, empty_bucket, new_rolling_vwap,
}
use market_tick_aggregator.Aggregator.Rolling.Vwap

module _ {F : Type 0} ⦃f : Float64 F⦄ where
  abbrev volumes : List (VwapBucket F) → List F
  volumes [] = []
  volumes (b ∷ bs) = b.sum_v ∷ volumes bs

  pub record Agree (r : RollingVolume F) (v : RollingVwap F) : Type 0 where
    pub buckets : r.volume_buckets ≡ volumes v.buckets
    pub idx : r.idx ≡ v.idx
    pub size : r.bucket_size_ms ≡ v.bucket_size_ms
    pub last : r.last_bucket_ts_ms ≡ v.last_bucket_ts_ms
    pub total : r.running_total ≡ v.total_sum_v

  length-volumes : (bs : List (VwapBucket F)) → length (volumes bs) ≡ length bs
  length-volumes [] = refl
  length-volumes (b ∷ bs) = ap suc (length-volumes bs)

  bucket_at-volumes :
      (i : ℕ) (bs : List (VwapBucket F))
      → bucket_at f.zero_float i (volumes bs) ≡ (bucket_at empty_bucket i bs).sum_v
  unfolding bucket_at
  bucket_at-volumes i [] = refl
  bucket_at-volumes zero (b ∷ bs) = refl
  bucket_at-volumes (suc i) (b ∷ bs) = bucket_at-volumes i bs

  put_bucket-volumes :
      (i : ℕ) (b : VwapBucket F) (bs : List (VwapBucket F))
      → put_bucket i b.sum_v (volumes bs) ≡ volumes (put_bucket i b bs)
  unfolding put_bucket
  put_bucket-volumes i new [] = refl
  put_bucket-volumes zero new (b ∷ bs) = refl
  put_bucket-volumes (suc i) new (b ∷ bs) =
      ap (λ (l : List F). b.sum_v ∷ l) (put_bucket-volumes i new bs)

  make_buckets-volumes :
      (n : ℕ) → make_buckets n f.zero_float ≡ volumes (make_buckets n empty_bucket)
  unfolding make_buckets
  make_buckets-volumes zero = refl
  make_buckets-volumes (suc n) = ap (λ (l : List F). f.zero_float ∷ l) (make_buckets-volumes n)

  next_bucket-Agree :
      (r : RollingVolume F) (v : RollingVwap F)
      → Agree r v
      → Agree (Volume.next_bucket r) (Vwap.next_bucket v)
  unfolding Volume.next_bucket Vwap.next_bucket
  next_bucket-Agree r v h =
      let i = (v.idx + 1) % length v.buckets in
      let same : (r.idx + 1) % length r.volume_buckets ≡ i =
        rw (h.buckets, h.idx, length-volumes v.buckets) in
      record {
        buckets = rw (same, h.buckets) (put_bucket-volumes i empty_bucket v.buckets);
        idx = same;
        size = h.size;
        last = h.last;
        total = rw (same, h.buckets, h.total, bucket_at-volumes i v.buckets);
      }

  advance-Agree :
      (k : ℕ) (r : RollingVolume F) (v : RollingVwap F)
      → Agree r v
      → Agree (Volume.advance k r) (Vwap.advance k v)
  unfolding Volume.advance Vwap.advance
  advance-Agree zero r v h = h
  advance-Agree (suc k) r v h =
      advance-Agree k (Volume.next_bucket r) (Vwap.next_bucket v) (next_bucket-Agree r v h)

  first_tick-Agree :
      (now : ℕ) (r : RollingVolume F) (v : RollingVwap F)
      → Agree r v
      → r.last_bucket_ts_ms ≤ now
      → Agree (Volume.first_tick now r) (Vwap.first_tick now v)
        × ((Volume.first_tick now r).last_bucket_ts_ms ≤ now)
  unfolding Volume.first_tick Vwap.first_tick
  first_tick-Agree now r v h le =
      let here : (r.last_bucket_ts_ms == 0) ≡ (v.last_bucket_ts_ms == 0) =
        ap (λ (last : ℕ). last == 0) h.last in
      elim (Bool-cases (v.last_bucket_ts_ms == 0)) [
        | inl fresh ↦
            rw (here, fresh)
              (
                record {
                  buckets = h.buckets;
                  idx = h.idx;
                  size = h.size;
                  last = refl;
                  total = h.total;
                },
                omega arith,
              )
        | inr later ↦ rw (here, later) (h, le)
      ]

  move_clock-Agree :
      (now : ℕ) (r : RollingVolume F) (v : RollingVwap F)
      → Agree r v
      → r.last_bucket_ts_ms ≤ now
      → Agree (Volume.move_clock now r) (Vwap.move_clock now v)
        × ((Volume.move_clock now r).last_bucket_ts_ms ≤ now)
  unfolding Volume.move_clock Vwap.move_clock Volume.advance
  move_clock-Agree now r v h le =
      let steps = (now - v.last_bucket_ts_ms) / v.bucket_size_ms in
      let same : (now - r.last_bucket_ts_ms) / r.bucket_size_ms ≡ steps = rw (h.last, h.size) in
      let on_time : ltb now r.last_bucket_ts_ms ≡ false = ground (arith, le) in
      let not_late : leb v.last_bucket_ts_ms now ≡ true = ground (arith, le, h.last) in
      elim (Bool-cases (leb v.bucket_size_ms (now - v.last_bucket_ts_ms))) [
        | inl passed ↦
            let moved = advance-Agree steps r v h in
            rw (on_time, not_late, passed, same)
              (
                record {
                  buckets = moved.buckets;
                  idx = moved.idx;
                  size = moved.size;
                  last = rw (h.last, h.size);
                  total = moved.total;
                },
                rw (h.last, h.size)
                    (omega (
                      arith,
                      div-mul-le_self (now - v.last_bucket_ts_ms) v.bucket_size_ms,
                      le,
                      h.last,
                    )),
              )
        | inr inside ↦
            let none_passed : steps ≡ 0 = div-eq_of_lt (ground (arith, inside)) in
            rw (on_time, not_late, inside, same, none_passed)
              (
                record {
                  buckets = h.buckets;
                  idx = h.idx;
                  size = h.size;
                  last = omega (arith, h.last);
                  total = h.total;
                },
                omega (arith, le),
              )
      ]

  update-Agree :
      (t : Tick F) (r : RollingVolume F) (v : RollingVwap F)
      → Agree r v
      → r.last_bucket_ts_ms ≤ t.event_ts_millis
      → Agree (Volume.update t r) (Vwap.update t v)
        × ((Volume.update t r).last_bucket_ts_ms ≤ t.event_ts_millis)
  unfolding Volume.update Vwap.update Volume.add_volume Vwap.add_trade
  update-Agree t r v h le =
      let now = t.event_ts_millis in
      let (started, le') = first_tick-Agree now r v h le in
      let (m, le'') =
        move_clock-Agree now (Volume.first_tick now r) (Vwap.first_tick now v) started le' in
      let v' = Vwap.move_clock now (Vwap.first_tick now v) in
      let b = bucket_at empty_bucket v'.idx v'.buckets in
      (
        record {
          buckets =
              rw (m.buckets, m.idx, bucket_at-volumes v'.idx v'.buckets)
                (put_bucket-volumes v'.idx
                  (record {
                    sum_pv = f.plus b.sum_pv (f.times t.price t.volume);
                    sum_v = f.plus b.sum_v t.volume;
                  })
                  v'.buckets);
          idx = m.idx;
          size = m.size;
          last = m.last;
          total = rw m.total;
        },
        le'',
      )

  -- No tick is earlier than the one before it.
  abbrev pub InOrder : ℕ → List (Tick F) → Type 0
  InOrder now [] = Unit {0}
  InOrder now (t ∷ ticks) = (now ≤ t.event_ts_millis) × InOrder t.event_ts_millis ticks

  run-Agree :
      (now : ℕ) (ticks : List (Tick F)) (r : RollingVolume F) (v : RollingVwap F)
      → Agree r v
      → r.last_bucket_ts_ms ≤ now
      → InOrder now ticks
      → Agree (Volume.run ticks r) (Vwap.run ticks v)
  unfolding Volume.run Vwap.run
  run-Agree now [] r v h le rising = h
  run-Agree now (t ∷ ticks) r v h le rising =
      let (h', le') = update-Agree t r v h (omega (arith, le, rising.0)) in
      run-Agree t.event_ts_millis ticks (Volume.update t r) (Vwap.update t v) h' le' rising.1

  new-Agree :
      (duration size cadency : ℕ) (r : RollingVolume F) (v : RollingVwap F)
      → new_rolling_volume duration size cadency ≡ some r
      → new_rolling_vwap duration size ≡ some v
      → Agree r v × (r.last_bucket_ts_ms ≡ 0)
  unfolding new_rolling_volume new_rolling_vwap
  new-Agree duration size cadency r v h k =
      elim (Bool-cases ((size == 0) || (duration / size == 0))) [
        | inl bad ↦ cc (rw bad at h)
        | inr good ↦
            let made = ap (λ (o : Option (RollingVolume F)). or_else o r) (rw good at h) in
            let made' = ap (λ (o : Option (RollingVwap F)). or_else o v) (rw good at k) in
            rw (← made, ← made')
              (
                record {
                  buckets = make_buckets-volumes (duration / size);
                  idx = refl;
                  size = refl;
                  last = refl;
                  total = refl;
                },
                refl,
              )
      ]

  -- If no tick is earlier than the one before it, a RollingVolume and a RollingVWAP of the same window
  -- agree after any ticks: they hold the same volume in each bucket and in total, and stand at the same
  -- bucket and time.
  pub both-Agree :
      (duration size cadency : ℕ) (r : RollingVolume F) (v : RollingVwap F) (ticks : List (Tick F))
      → new_rolling_volume duration size cadency ≡ some r
      → new_rolling_vwap duration size ≡ some v
      → InOrder 0 ticks
      → Agree (Volume.run ticks r) (Vwap.run ticks v)
  both-Agree duration size cadency r v ticks made made' rising =
      let (h, at_start) = new-Agree duration size cadency r v made made' in
      run-Agree 0 ticks r v h (omega (arith, at_start)) rising
