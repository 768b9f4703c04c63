-- ===== src/Aggregator/Checkpoint/Committed.antt =====
-- A worker whose states carry a log does what it does without, and what a commit says of the logs.
use market_tick_aggregator.Prelude.{Eq}
use market_tick_aggregator.Prelude.Assoc.{Assoc}
use market_tick_aggregator.Aggregator.Checkpoint.{Effects}
use market_tick_aggregator.Aggregator.Checkpoint.Logged.{LoggedState, unlogged}

module _ {K S T : Type 0} ⦃e : Eq K⦄ (x : Effects S T) (restore : K → S) where
  abbrev fresh : K → LoggedState x
  fresh k = unlogged x (restore k)
