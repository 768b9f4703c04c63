-- ===== src/Normalizer/Orderer/Time/Tests.antt =====
-- Three book updates, two of one time.
use market_tick_aggregator.Prelude.{ℕ, ◌≡◌, List, [], ◌∷◌, none, nat_eq}
use market_tick_aggregator.Prelude.Sort.{AscendingFrom}
use market_tick_aggregator.Normalizer.State.{PipelineMessage, other_message, zero_state}
use market_tick_aggregator.Normalizer.Orderer.Time.{init_ts_orderer_state, prepare_ts_buffer_flush}
use market_tick_aggregator.Normalizer.Orderer.Time.Flush.{at_time, flush-AscendingFrom}
use market_tick_aggregator.Normalizer.Orderer.Time.{gather}
use market_tick_aggregator.Prelude.Sort.{sort}
use market_tick_aggregator.Normalizer.Orderer.Time.{ts_order}
use market_tick_aggregator.Normalizer.Orderer.Time.{park_ts}
use market_tick_aggregator.Prelude.Assoc.{lookup}
use market_tick_aggregator.Prelude.Assoc.{insert}

abbrev update : ℕ → ℕ → PipelineMessage
update ts seq = record {
  exchange = 107 ∷ [];
  channel = 98 ∷ [];
  symbol = 115 ∷ [];
  seq_id = seq;
  ts = ts;
  raw_message = other_message;
  source = none;
  event_type = "update";
}

abbrev updates : List PipelineMessage
updates = update 9 0 ∷ update 4 1 ∷ update 9 2 ∷ []

flush-AscendingFrom_example :
    AscendingFrom 0 (4 ∷ 9 ∷ 9 ∷ [])
    × ((t : ℕ) → at_time t (update 4 1 ∷ update 9 0 ∷ update 9 2 ∷ []) ≡ at_time t updates)
unfolding prepare_ts_buffer_flush gather sort ts_order park_ts lookup insert init_ts_orderer_state
flush-AscendingFrom_example = flush-AscendingFrom zero_state (update 9 0) updates
