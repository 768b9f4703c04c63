-- ===== src/Aggregator/Rolling/Inside.antt =====
-- What holds of the ring of volumes after any ticks.
use market_tick_aggregator.Prelude.{
  ℕ, zero, suc, ◌+◌, ◌-◌, ◌/◌, ◌%◌, ◌<◌, ◌≡◌, refl, ap, ◌∙◌, List, [], ◌∷◌, Option, some, length,
  ltb, arith, Bool-cases, inl, inr, ◌==◌, nat_eq, ◌||◌, subst, or_else,
}
use native.Mathlib.Nat.{mod-lt}
use market_tick_aggregator.Aggregator.Rolling.{Float64, Tick, make_buckets, put_bucket}
use market_tick_aggregator.Aggregator.Rolling.Volume.{RollingVolume, new_rolling_volume}
use market_tick_aggregator.Aggregator.Rolling.Volume

module _ {B : Type 0} where
  length-put_bucket : (i : ℕ) (new : B) (bs : List B) → length (put_bucket i new bs) ≡ length bs
  unfolding put_bucket
  length-put_bucket i new [] = refl
  length-put_bucket zero new (b ∷ bs) = refl
  length-put_bucket (suc i) new (b ∷ bs) = ap suc (length-put_bucket i new bs)

  length-make_buckets : (n : ℕ) (b : B) → length (make_buckets n b) ≡ n
  unfolding make_buckets
  length-make_buckets zero b = refl
  length-make_buckets (suc n) b = ap suc (length-make_buckets n b)

module _ {F : Type 0} ⦃f : Float64 F⦄ where
  -- There are `n` buckets, and the index is one of theirs.
  pub record InsideVolume (n : ℕ) (r : RollingVolume F) : Type 0 where
    pub count : length r.volume_buckets ≡ n
    pub inside : r.idx < n

  next_bucket-InsideVolume :
      (n : ℕ) (r : RollingVolume F) → InsideVolume n r → InsideVolume n (Volume.next_bucket r)
  unfolding Volume.next_bucket
  next_bucket-InsideVolume n r h =
      let i = (r.idx + 1) % length r.volume_buckets in
      let below : i < length r.volume_buckets =
        mod-lt (r.idx + 1) (omega (arith, h.inside, h.count)) in
      record {
        count = length-put_bucket i f.zero_float r.volume_buckets ∙ h.count;
        inside = omega (arith, below, h.count);
      }

  advance-InsideVolume :
      (n k : ℕ) (r : RollingVolume F) → InsideVolume n r → InsideVolume n (Volume.advance k r)
  unfolding Volume.advance
  advance-InsideVolume n zero r h = h
  advance-InsideVolume n (suc k) r h =
      advance-InsideVolume n k (Volume.next_bucket r) (next_bucket-InsideVolume n r h)

  first_tick-InsideVolume :
      (n now : ℕ) (r : RollingVolume F)
      → InsideVolume n r
      → InsideVolume n (Volume.first_tick now r)
  unfolding Volume.first_tick
  first_tick-InsideVolume n now r h = elim (Bool-cases (r.last_bucket_ts_ms == 0)) [
    | inl fresh ↦ rw fresh (record { count = h.count; inside = h.inside })
    | inr later ↦ rw later h
  ]

  move_clock-InsideVolume :
      (n now : ℕ) (r : RollingVolume F)
      → InsideVolume n r
      → InsideVolume n (Volume.move_clock now r)
  unfolding Volume.move_clock
  move_clock-InsideVolume n now r h = elim (Bool-cases (ltb now r.last_bucket_ts_ms)) [
    | inl late ↦ rw late (record { count = h.count; inside = h.inside })
    | inr on_time ↦
        let moved = advance-InsideVolume n ((now - r.last_bucket_ts_ms) / r.bucket_size_ms) r h in
        rw on_time (record { count = moved.count; inside = moved.inside })
  ]

  update-InsideVolume :
      (n : ℕ) (t : Tick F) (r : RollingVolume F)
      → InsideVolume n r
      → InsideVolume n (Volume.update t r)
  unfolding Volume.update Volume.add_volume
  update-InsideVolume n t r h =
      let moved = Volume.move_clock t.event_ts_millis (Volume.first_tick t.event_ts_millis r) in
      let m =
        move_clock-InsideVolume n t.event_ts_millis _
          (first_tick-InsideVolume n t.event_ts_millis r h) in
      record {
        count = length-put_bucket moved.idx _ moved.volume_buckets ∙ m.count;
        inside = m.inside;
      }

  run-InsideVolume :
      (n : ℕ) (ticks : List (Tick F)) (r : RollingVolume F)
      → InsideVolume n r
      → InsideVolume n (Volume.run ticks r)
  unfolding Volume.run
  run-InsideVolume n [] r h = h
  run-InsideVolume n (t ∷ ticks) r h =
      run-InsideVolume n ticks (Volume.update t r) (update-InsideVolume n t r h)

  new-InsideVolume :
      (duration size cadency : ℕ) (r : RollingVolume F)
      → new_rolling_volume duration size cadency ≡ some r
      → InsideVolume (duration / size) r
  unfolding new_rolling_volume
  new-InsideVolume duration size cadency r h =
      elim (Bool-cases ((size == 0) || (duration / size == 0))) [
        | inl bad ↦ cc (rw bad at h)
        | inr good ↦
            subst (InsideVolume (duration / size))
              (ap (λ (o : Option (RollingVolume F)). or_else o r) (rw good at h))
              (record {
                count = length-make_buckets (duration / size) f.zero_float;
                inside = ground (arith, good);
              })
      ]

  -- After any ticks, in any order of their times and with any gaps between them, a new RollingVolume
  -- still has as many buckets as fit into the duration, and its index is that of a bucket, so that no
  -- access of the ring is out of range.
  pub run-inside :
      (duration size cadency : ℕ) (r : RollingVolume F) (ticks : List (Tick F))
      → new_rolling_volume duration size cadency ≡ some r
      → (length (Volume.run ticks r).volume_buckets ≡ duration / size)
        × ((Volume.run ticks r).idx < length (Volume.run ticks r).volume_buckets)
  run-inside duration size cadency r ticks made =
      let b =
        run-InsideVolume (duration / size) ticks r
          (new-InsideVolume duration size cadency r made) in
      (b.count, omega (arith, b.inside, b.count))
