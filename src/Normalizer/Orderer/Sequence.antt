-- ===== src/Normalizer/Orderer/Sequence.antt =====
-- normalizer/utils/sequence_orderer.go: ordering by sequence id.
pub mod Buffer
use market_tick_aggregator.Prelude.{
  ℕ, ◌-◌, Bool, true, false, List, [], ◌∷◌, ◌++◌, Option, none, some, if◌then◌else◌, contains,
  nat_eq, is_some,
}
use market_tick_aggregator.Prelude.Int.{ℤ, pos, sub_ℕ, ltb_ℤ}
use market_tick_aggregator.Prelude.Assoc.{Assoc, lookup, insert, delete}
use market_tick_aggregator.Prelude.Sort.{sort}
use market_tick_aggregator.Normalizer.State.{
  PipelineMessage, SymbolState, Ordered, Effect, start_gap_timer, post_flush,
}

-- gapFlushTimeout, in milliseconds
abbrev pub gap_flush_timeout : ℕ
gap_flush_timeout = 2000

unfoldable pub init_sequence_orderer_state : SymbolState → PipelineMessage → SymbolState
init_sequence_orderer_state s msg = record s {
  buffer_seq_map = [];
  buffer_seq_id = [];
  gap = false;
  gap_active = false;
  last_seq_id = sub_ℕ msg.seq_id 1;
}

-- The id goes into the list only if the map does not hold it; the map takes the message either way.
unfoldable pub park_sequence : PipelineMessage → SymbolState → SymbolState
park_sequence msg s = record s {
  buffer_seq_id =
      if is_some (lookup msg.seq_id s.buffer_seq_map)
      then s.buffer_seq_id
      else s.buffer_seq_id ++ (msg.seq_id ∷ []);
  buffer_seq_map = insert msg.seq_id msg s.buffer_seq_map;
}

abbrev pub is_empty {ℓ} : {A : Type ℓ} → List A → Bool
is_empty [] = true
is_empty (x ∷ xs) = false

-- the branch for a buffer that is not empty although no gap timer runs
unfoldable pub park_resumed : PipelineMessage → SymbolState → Ordered
park_resumed msg s = record {
  out = [];
  state = record s {
    buffer_seq_map = insert msg.seq_id msg s.buffer_seq_map;
    buffer_seq_id = s.buffer_seq_id ++ (msg.seq_id ∷ []);
  };
  effects = post_flush ∷ [];
}

-- a message below the last sequence id opens a gap; any other is passed on
unfoldable pub order_next : PipelineMessage → SymbolState → Ordered
order_next msg s =
    let s' = record s { last_seq_id = pos msg.seq_id } in
    if ltb_ℤ (pos msg.seq_id) s.last_seq_id
    then record {
      out = [];
      state = record (park_sequence msg s') { gap_active = true; gap = true };
      effects = start_gap_timer gap_flush_timeout ∷ [];
    }
    else record { out = msg ∷ []; state = s'; effects = [] }

unfoldable pub sequence_orderer : PipelineMessage → SymbolState → Ordered
sequence_orderer msg s =
    if s.gap_active
    then record { out = []; state = park_sequence msg s; effects = [] }
    else if is_empty s.buffer_seq_map
    then order_next msg s
    else park_resumed msg s

-- the loop over the sorted ids
unfoldable pub pick : Assoc ℕ PipelineMessage → List ℕ → List PipelineMessage
pick m [] = []
pick m (id ∷ ids) = elim (lookup id m) [ none ↦ pick m ids | some msg ↦ msg ∷ pick m ids ]

-- `sort.Slice` leaves the state's list sorted.
unfoldable pub sequence_sort_buffer_flush : SymbolState → List PipelineMessage × SymbolState
sequence_sort_buffer_flush s =
    let ids = sort s.buffer_seq_id in (pick s.buffer_seq_map ids, record s { buffer_seq_id = ids })

unfoldable pub sequence_ack : SymbolState → PipelineMessage → SymbolState
sequence_ack s msg = record s {
  last_seq_id = pos msg.seq_id;
  buffer_seq_map = delete msg.seq_id s.buffer_seq_map;
}

unfoldable pub sequence_orderer_cleanup : SymbolState → SymbolState
sequence_orderer_cleanup s = record s {
  buffer_seq_id = [];
  buffer_seq_map = [];
  gap = false;
  gap_active = false;
}
