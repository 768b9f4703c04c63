-- ===== src/Aggregator/Rolling.antt =====
-- aggregator/internal/aggmetrics: the metrics of a rolling window, in a ring of buckets. The
-- arithmetic of float64 is a parameter of which nothing is assumed.
pub mod Volume
pub mod Vwap
pub mod Inside
pub mod Agree
mod Tests
use market_tick_aggregator.Prelude.{ℕ, zero, suc, Bool, List, [], ◌∷◌}

-- The operations of float64 that the metrics use: no law holds of them here, as they round.
pub record Float64 (F : Type 0) : Type 0 where
  pub zero_float : F
  pub plus : F → F → F
  pub minus : F → F → F
  pub times : F → F → F
  pub is_positive : F → Bool

-- What a NormalizedTick gives to the rolling metrics.
pub record Tick (F : Type 0) : Type 0 where
  pub price : F
  pub volume : F
  pub event_ts_millis : ℕ

module _ {B : Type 0} where
  -- make([]B, n)
  unfoldable pub make_buckets : ℕ → B → List B
  make_buckets zero b = []
  make_buckets (suc n) b = b ∷ make_buckets n b

  -- The bucket at an index that the ring has.
  unfoldable pub bucket_at : B → ℕ → List B → B
  bucket_at empty i [] = empty
  bucket_at empty zero (b ∷ bs) = b
  bucket_at empty (suc i) (b ∷ bs) = bucket_at empty i bs

  unfoldable pub put_bucket : ℕ → B → List B → List B
  put_bucket i new [] = []
  put_bucket zero new (b ∷ bs) = new ∷ bs
  put_bucket (suc i) new (b ∷ bs) = b ∷ put_bucket i new bs
