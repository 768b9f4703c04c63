-- ===== src/Normalizer/Orderer/Time.antt =====
-- normalizer/utils/ts_orderer.go: ordering by exchange time.
pub mod Flush
mod Tests
use market_tick_aggregator.Prelude.{
  ℕ, true, false, List, [], ◌∷◌, ◌++◌, Option, none, some, if◌then◌else◌, nat_eq, is_some, or_else,
}
use market_tick_aggregator.Prelude.Assoc.{Assoc, lookup, insert, delete}
use market_tick_aggregator.Prelude.Sort.{sort}
use market_tick_aggregator.Normalizer.State.{PipelineMessage, SymbolState, Ordered, start_gap_timer}

unfoldable pub init_ts_orderer_state : SymbolState → PipelineMessage → SymbolState
init_ts_orderer_state s msg = record s {
  buffer_time = [];
  buffer_time_map = [];
  gap = false;
  gap_active = false;
}

-- m[ts], nil if there is none
abbrev pub messages_at : Assoc ℕ (List PipelineMessage) → ℕ → List PipelineMessage
messages_at m ts = or_else (lookup ts m) []

unfoldable pub park_ts : PipelineMessage → SymbolState → SymbolState
park_ts msg s = record s {
  buffer_time =
      if is_some (lookup msg.ts s.buffer_time_map)
      then s.buffer_time
      else s.buffer_time ++ (msg.ts ∷ []);
  buffer_time_map =
      insert msg.ts (messages_at s.buffer_time_map msg.ts ++ (msg ∷ [])) s.buffer_time_map;
}

unfoldable pub ts_order : PipelineMessage → SymbolState → Ordered
ts_order msg s = record {
  out = [];
  state = record (park_ts msg s) { gap = if s.gap_active then s.gap else true; gap_active = true };
  effects = if s.gap_active then [] else start_gap_timer 250 ∷ [];
}

-- the loop over the sorted times
unfoldable pub gather : Assoc ℕ (List PipelineMessage) → List ℕ → List PipelineMessage
gather m [] = []
gather m (ts ∷ tss) = messages_at m ts ++ gather m tss

unfoldable pub prepare_ts_buffer_flush : SymbolState → List PipelineMessage × SymbolState
prepare_ts_buffer_flush s =
    let tss = sort s.buffer_time in (gather s.buffer_time_map tss, record s { buffer_time = tss })

-- `slices.Delete(m[ts], 0, 1)` panics on an empty slice: `none`.
abbrev drop_first :
    ℕ
    → Assoc ℕ (List PipelineMessage)
    → List PipelineMessage
    → Option (Assoc ℕ (List PipelineMessage))
drop_first ts m [] = none
drop_first ts m (x ∷ []) = some (delete ts m)
drop_first ts m (x ∷ y ∷ rest) = some (insert ts (y ∷ rest) m)

unfoldable pub ts_ack : PipelineMessage → SymbolState → Option SymbolState
ts_ack msg s = elim (drop_first msg.ts s.buffer_time_map (messages_at s.buffer_time_map msg.ts)) [
  | none ↦ none
  | some m ↦ some (record s { last_seen_ts = msg.ts; buffer_time_map = m })
]

unfoldable pub ts_cleanup : SymbolState → SymbolState
ts_cleanup s = record s { gap_active = false; buffer_time = []; buffer_time_map = []; gap = false }
