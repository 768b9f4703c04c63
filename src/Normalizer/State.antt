-- ===== src/Normalizer/State.antt =====
-- normalizer/constants/constants.go: the messages and the per-symbol state of the normalizer.
-- Sequence ids, update ids and times are the exchange's int64 values, which are not negative;
-- `last_seq_id` starts one below the first id, so it may be -1.
use market_tick_aggregator.Prelude.{ℕ, Bool, List, [], String, Option}
use market_tick_aggregator.Prelude.Int.{ℤ, pos}
use market_tick_aggregator.Prelude.Assoc.{Assoc}
use market_tick_aggregator.Kafka.{Text, Record}

-- `RawMessage interface{}`: the worker tests for one type only.
pub data RawMessage : Type 0 where
  binance_depth_update : ℕ → ℕ → RawMessage
  other_message : RawMessage

pub record PipelineMessage : Type 0 where
  pub exchange : Text
  pub channel : Text
  pub symbol : Text
  pub seq_id : ℕ
  pub ts : ℕ
  pub raw_message : RawMessage
  pub source : Option Record
  pub event_type : String

abbrev pub snapshot_event : String
snapshot_event = "snapshot"

abbrev pub dropped_count_header : String
dropped_count_header = "dropped-count"

-- `Gap *time.Timer` is kept as whether it is nil.
pub record SymbolState : Type 0 where
  pub buffer_seq_map : Assoc ℕ PipelineMessage
  pub buffer_seq_id : List ℕ
  pub buffer_time_map : Assoc ℕ (List PipelineMessage)
  pub buffer_time : List ℕ
  pub gap : Bool
  pub gap_active : Bool
  pub needs_snapshot : Bool
  pub snapshot_pending : Bool
  pub awaiting_snapshot : Bool
  pub last_seq_id : ℤ
  pub last_seen_ts : ℕ

-- What a stage does outside the state that it changes: it starts the timer that posts FlushBuffer
-- after so many milliseconds, posts FlushBuffer itself, starts the REST fetch, or asks the adapter
-- to resubscribe.
pub data Effect : Type 0 where
  start_gap_timer : ℕ → Effect
  post_flush : Effect
  fetch_snapshot : Effect
  request_resync : Text → Text → Effect

-- What `Order` returns, with the state it leaves.
pub record Ordered : Type 0 where
  pub out : List PipelineMessage
  pub state : SymbolState
  pub effects : List Effect

-- the zero value of the state's ordering fields
abbrev pub zero_state : SymbolState
zero_state = record {
  buffer_seq_map = [];
  buffer_seq_id = [];
  buffer_time_map = [];
  buffer_time = [];
  gap = Bool.false;
  gap_active = Bool.false;
  needs_snapshot = Bool.false;
  snapshot_pending = Bool.false;
  awaiting_snapshot = Bool.false;
  last_seq_id = pos 0;
  last_seen_ts = 0;
}
