-- ===== src/Normalizer/Orderer/Resync.antt =====
-- normalizer/utils/binance_depth_resync.go and book_resync.go: what a drop of the adapter triggers.
use market_tick_aggregator.Prelude.{
  ℕ, ◌+◌, ◌-◌, ◌*◌, ◌^◌, Bool, true, false, not, ◌&&◌, List, [], ◌∷◌, ◌++◌, Option, none, some,
  if◌then◌else◌, ltb, leb, ◌==◌, string_eq,
}
use market_tick_aggregator.Kafka.{Record, RecordHeader}
use market_tick_aggregator.Normalizer.State.{
  PipelineMessage, SymbolState, Ordered, Effect, fetch_snapshot, request_resync, snapshot_event,
  dropped_count_header,
}
use market_tick_aggregator.Normalizer.Orderer.Sequence.{
  init_sequence_orderer_state, park_sequence, sequence_orderer,
}
use market_tick_aggregator.Normalizer.Orderer.Time.{ts_order}

-- strconv.ParseUint(s, 10, 64): a non-empty run of digits below 2^64.
unfoldable pub parse_digits : ℕ → List ℕ → Option ℕ
parse_digits acc [] = some acc
parse_digits acc (c ∷ cs) =
    let acc' = acc * 10 + (c - 48) in
    let rest = parse_digits acc' cs in
    if leb 48 c && leb c 57 && ltb acc' (2 ^ 64) then rest else none

unfoldable pub parse_uint : List ℕ → Option ℕ
parse_uint [] = none
parse_uint (c ∷ cs) = parse_digits 0 (c ∷ cs)

abbrev is_positive : Option ℕ → Bool
is_positive none = false
is_positive (some n) = ltb 0 n

-- The first `dropped-count` header decides.
unfoldable pub drop_marker : List RecordHeader → Bool
drop_marker [] = false
drop_marker (h ∷ hs) =
    if h.key == dropped_count_header then is_positive (parse_uint h.value) else drop_marker hs

unfoldable pub has_drop_marker : Option Record → Bool
has_drop_marker none = false
has_drop_marker (some r) = drop_marker r.headers

unfoldable pub init_binance_depth_resync_state : SymbolState → PipelineMessage → SymbolState
init_binance_depth_resync_state s msg = record (init_sequence_orderer_state s msg) {
  needs_snapshot = true;
  snapshot_pending = false;
}

-- an update that waits for the snapshot
unfoldable pub park_unsynced : PipelineMessage → SymbolState → Ordered
park_unsynced msg s = record {
  out = [];
  state = record (park_sequence msg s) { snapshot_pending = true };
  effects = if s.snapshot_pending then [] else fetch_snapshot ∷ [];
}

unfoldable pub binance_depth_order : PipelineMessage → SymbolState → Ordered
binance_depth_order msg s =
    let s' =
      if has_drop_marker msg.source && not s.needs_snapshot
      then record s { needs_snapshot = true }
      else s in
    if s'.needs_snapshot then park_unsynced msg s' else sequence_orderer msg s'

abbrev pub resync_request : PipelineMessage → List Effect
resync_request msg = elim msg.source [ none ↦ [] | some r ↦ request_resync r.topic msg.symbol ∷ [] ]

abbrev with_effects : List Effect → Ordered → Ordered
with_effects before o = record o { effects = before ++ o.effects }

-- an update, after its drop marker was seen to
unfoldable pub book_update : List Effect → PipelineMessage → SymbolState → Ordered
book_update requests msg s =
    if s.awaiting_snapshot
    then record { out = []; state = s; effects = requests }
    else with_effects requests (ts_order msg s)

unfoldable pub book_order_with_resync : PipelineMessage → SymbolState → Ordered
unfolding book_update
book_order_with_resync msg s =
    if msg.event_type == snapshot_event
    then record { out = msg ∷ []; state = record s { awaiting_snapshot = false }; effects = [] }
    else if has_drop_marker msg.source && not s.awaiting_snapshot
    then book_update (resync_request msg) msg (record s { awaiting_snapshot = true })
    else book_update [] msg s
