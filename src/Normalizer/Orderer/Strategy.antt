-- ===== src/Normalizer/Orderer/Strategy.antt =====
-- normalizer/factory/orderer: the orderer of each exchange and channel.
use market_tick_aggregator.Prelude.{List, [], ◌∷◌, Option, some, if◌then◌else◌, ◌==◌, string_eq}
use market_tick_aggregator.Normalizer.State.{PipelineMessage, SymbolState, Ordered, snapshot_event}
use market_tick_aggregator.Normalizer.Orderer.Sequence.{
  init_sequence_orderer_state, sequence_orderer, sequence_sort_buffer_flush, sequence_ack,
  sequence_orderer_cleanup,
}
use market_tick_aggregator.Normalizer.Orderer.Time.{
  init_ts_orderer_state, prepare_ts_buffer_flush, ts_ack, ts_cleanup,
}
use market_tick_aggregator.Normalizer.Orderer.Resync.{
  init_binance_depth_resync_state, binance_depth_order, book_order_with_resync,
}

-- `OrdererStrategy`, over the symbol state that each orderer points to. `ack` may panic (`none`).
pub record OrdererStrategy : Type 0 where
  pub init_orderer_state : SymbolState → PipelineMessage → SymbolState
  pub order : PipelineMessage → SymbolState → Ordered
  pub prepare_buffer_flush : SymbolState → List PipelineMessage × SymbolState
  pub ack : PipelineMessage → SymbolState → Option SymbolState
  pub cleanup : SymbolState → SymbolState

unfoldable pub binance_agg_trade_orderer : OrdererStrategy
binance_agg_trade_orderer = record {
  init_orderer_state = init_sequence_orderer_state;
  order = sequence_orderer;
  prepare_buffer_flush = sequence_sort_buffer_flush;
  ack = λ msg s. some (sequence_ack s msg);
  cleanup = sequence_orderer_cleanup;
}

unfoldable pub binance_depth_orderer : OrdererStrategy
binance_depth_orderer = record {
  init_orderer_state = init_binance_depth_resync_state;
  order = binance_depth_order;
  prepare_buffer_flush = sequence_sort_buffer_flush;
  ack = λ msg s. some (sequence_ack s msg);
  cleanup = sequence_orderer_cleanup;
}

unfoldable pub coinbase_ticker_orderer : OrdererStrategy
coinbase_ticker_orderer = record {
  init_orderer_state = init_sequence_orderer_state;
  order = sequence_orderer;
  prepare_buffer_flush = sequence_sort_buffer_flush;
  ack = λ msg s. some (sequence_ack s msg);
  cleanup = sequence_orderer_cleanup;
}

-- A snapshot was never parked, so it is not taken off the buffer.
unfoldable pub book_ack : PipelineMessage → SymbolState → Option SymbolState
book_ack msg s = if msg.event_type == snapshot_event then some s else ts_ack msg s

unfoldable pub coinbase_level2_orderer : OrdererStrategy
coinbase_level2_orderer = record {
  init_orderer_state = init_ts_orderer_state;
  order = book_order_with_resync;
  prepare_buffer_flush = prepare_ts_buffer_flush;
  ack = book_ack;
  cleanup = ts_cleanup;
}

unfoldable pub kraken_ticker_orderer : OrdererStrategy
kraken_ticker_orderer = record {
  init_orderer_state = λ s msg. s;
  order = λ msg s. record { out = msg ∷ []; state = s; effects = [] };
  prepare_buffer_flush = λ s. ([], s);
  ack = λ msg s. some s;
  cleanup = λ s. s;
}

unfoldable pub kraken_book_orderer : OrdererStrategy
kraken_book_orderer = record {
  init_orderer_state = init_ts_orderer_state;
  order = book_order_with_resync;
  prepare_buffer_flush = prepare_ts_buffer_flush;
  ack = book_ack;
  cleanup = ts_cleanup;
}
