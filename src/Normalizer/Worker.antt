-- ===== src/Normalizer/Worker.antt =====
-- normalizer/worker/worker.go: one symbol's messages from its orderer to the output topic, and the
-- source offsets that must not be committed yet. The worker's goroutine runs each function whole.
pub mod Flush
pub mod Snapshot
pub mod Buffered
pub mod Kept
pub mod Depth
pub mod Unsynced
pub mod Commit
mod Tests
use market_tick_aggregator.Prelude.{
  ℕ, ◌+◌, Bool, true, false, List, [], ◌∷◌, ◌++◌, Option, none, some, if◌then◌else◌, ltb, leb,
  nat_eq, ◌&&◌, Eq,
}
use market_tick_aggregator.Prelude.Int.{ℤ, pos}
use market_tick_aggregator.Prelude.Assoc.{Assoc, lookup, insert}
use market_tick_aggregator.Kafka.{Record, Text, TopicPartition, tp_eq}
use market_tick_aggregator.Normalizer.State.{
  RawMessage, binance_depth_update, other_message, PipelineMessage, SymbolState, Ordered, Effect,
}
use market_tick_aggregator.Normalizer.Orderer.Strategy.{OrdererStrategy}

-- What reaches the producer: a normalized message or a REST snapshot.
pub data Output : Type 0 where
  message : PipelineMessage → Output
  rest_snapshot : ℕ → Output

-- What one handler leaves: its state, its outputs in order, and whether it starts a REST fetch.
pub record Handled : Type 0 where
  pub state : SymbolState
  pub outputs : List Output
  pub refetch : Bool

-- constants.BinanceDepthSnapshot; a level is a list of texts, the price and the volume first.
pub record DepthSnapshot : Type 0 where
  pub last_update_id : ℕ
  pub bids : List (List Text)
  pub asks : List (List Text)

-- level[0] and level[1]
abbrev pub is_priced : List Text → Bool
is_priced (price ∷ volume ∷ rest) = true
is_priced level = false

unfoldable pub all_priced : List (List Text) → Bool
all_priced [] = true
all_priced (level ∷ levels) = is_priced level && all_priced levels

-- Whether the protobuf could be built; `encodes` is whether it can be encoded. A level without a price
-- and a volume panics: none.
unfoldable pub build_snapshot_proto : Bool → DepthSnapshot → Option Bool
build_snapshot_proto encodes snapshot =
    if all_priced snapshot.bids && all_priced snapshot.asks then some encodes else none

-- a depth update that the snapshot does not contain
abbrev pub survives : ℕ → RawMessage → Bool
survives last (binance_depth_update first final) = ltb last final
survives last other_message = false

unfoldable pub survivors : ℕ → List PipelineMessage → List PipelineMessage
survivors last [] = []
survivors last (m ∷ ms) =
    let rest = survivors last ms in if survives last m.raw_message then m ∷ rest else rest

-- FirstUpdateID > LastUpdateID + 1; the type assertion panics on any other message: none.
abbrev pub starts_late : ℕ → RawMessage → Option Bool
starts_late last (binance_depth_update first final) = some (ltb (last + 1) first)
starts_late last other_message = none

unfoldable pub is_stale_snapshot : ℕ → List PipelineMessage → Option Bool
is_stale_snapshot last [] = some false
is_stale_snapshot last (m ∷ ms) = starts_late last m.raw_message

-- `normalize m` is whether the normalizer strategy, which returns, makes a record of `m`.
module _ (normalize : PipelineMessage → Bool) (orderer : OrdererStrategy) where
  -- The loop of `ProcessBuffer`; `none` is a panic in `Ack`.
  unfoldable pub process_messages :
      List PipelineMessage → SymbolState → List Output → Option (SymbolState × List Output)
  process_messages [] s out = some (s, out)
  process_messages (msg ∷ msgs) s out = elim (normalize msg) [
    | false ↦ process_messages msgs s out
    | true ↦ elim (orderer.ack msg s) [
      | none ↦ none
      | some s' ↦ process_messages msgs s' (out ++ (message msg ∷ []))
    ]
  ]

  abbrev clean : Option (SymbolState × List Output) → Option (SymbolState × List Output)
  clean none = none
  clean (some (s, out)) = some (orderer.cleanup s, out)

  unfoldable pub process_buffer :
      List PipelineMessage → SymbolState → List Output → Option (SymbolState × List Output)
  process_buffer msgs s out = clean (process_messages msgs s out)

  -- The end of `ProcessRecord`: the message is ordered, and what comes out is processed.
  unfoldable pub process_message :
      PipelineMessage → SymbolState → Option (SymbolState × List Output × List Effect)
  process_message msg s =
      let o = orderer.order msg s in
      elim o.out [
        | [] ↦ some (o.state, [], o.effects)
        | m ∷ ms ↦ elim (process_buffer (m ∷ ms) o.state []) [
          | none ↦ none
          | some (s', out) ↦ some (s', out, o.effects)
        ]
      ]

  unfoldable pub flush_buffer : SymbolState → Option (SymbolState × List Output)
  flush_buffer s = let (buffer, s') = orderer.prepare_buffer_flush s in process_buffer buffer s' []

  abbrev process_survivors :
      List PipelineMessage → SymbolState → List Output → Option (SymbolState × List Output)
  process_survivors [] s out = some (s, out)
  process_survivors (m ∷ ms) s out = process_buffer (m ∷ ms) s out

  abbrev handled : Option (SymbolState × List Output) → Option Handled
  handled none = none
  handled (some (s, out)) = some (record { state = s; outputs = out; refetch = false })

  -- the splice, once the snapshot is known to reach the buffered stream; `marshalled` is whether the
  -- snapshot's protobuf could be built
  unfoldable pub splice : Bool → ℕ → List PipelineMessage → SymbolState → Option Handled
  splice marshalled last kept s =
      let s' = record s { needs_snapshot = false; last_seq_id = pos last } in
      let out = if marshalled then rest_snapshot last ∷ [] else [] in
      handled (clean (process_survivors kept s' out))

  abbrev spliced : Option Bool → ℕ → List PipelineMessage → SymbolState → Option Handled
  spliced none last kept s = none
  spliced (some marshalled) last kept s = splice marshalled last kept s

  abbrev refetch_or_splice :
      Option Bool → Bool → DepthSnapshot → List PipelineMessage → SymbolState → Option Handled
  refetch_or_splice none encodes snapshot kept s = none
  refetch_or_splice (some true) encodes snapshot kept s =
      some (record { state = record s { snapshot_pending = true }; outputs = []; refetch = true })
  refetch_or_splice (some false) encodes snapshot kept s =
      spliced (build_snapshot_proto encodes snapshot) snapshot.last_update_id kept s

  -- `none` in place of the snapshot is a fetch that failed. A panic is none.
  unfoldable pub process_snapshot_ready : Bool → Option DepthSnapshot → SymbolState → Option Handled
  process_snapshot_ready encodes none s =
      some (record { state = record s { snapshot_pending = false }; outputs = []; refetch = false })
  process_snapshot_ready encodes (some snapshot) s =
      let (buffer, s') = orderer.prepare_buffer_flush (record s { snapshot_pending = false }) in
      let kept = survivors snapshot.last_update_id buffer in
      refetch_or_splice (is_stale_snapshot snapshot.last_update_id kept) encodes snapshot kept s'

abbrev pub source_of : Record → TopicPartition
source_of r = record { topic = r.topic; partition = r.partition }

-- if cur, ok := lowest[k]; !ok || off < cur { lowest[k] = off }
module _ {ℓ} {K : Type ℓ} ⦃e : Eq K⦄ where
  unfoldable pub note_at : K → ℕ → Assoc K ℕ → Assoc K ℕ
  note_at k off lowest = elim (lookup k lowest) [
    | none ↦ insert k off lowest
    | some cur ↦ if ltb off cur then insert k off lowest else lowest
  ]

-- messages without a record are skipped
unfoldable pub note : PipelineMessage → Assoc TopicPartition ℕ → Assoc TopicPartition ℕ
note msg lowest = elim msg.source [ none ↦ lowest | some r ↦ note_at (source_of r) r.offset lowest ]

unfoldable pub note_all : List PipelineMessage → Assoc TopicPartition ℕ → Assoc TopicPartition ℕ
note_all [] lowest = lowest
note_all (msg ∷ msgs) lowest = note_all msgs (note msg lowest)

unfoldable pub note_seq : Assoc ℕ PipelineMessage → Assoc TopicPartition ℕ → Assoc TopicPartition ℕ
note_seq [] lowest = lowest
note_seq ((id, msg) ∷ m) lowest = note_seq m (note msg lowest)

unfoldable pub note_time :
    Assoc ℕ (List PipelineMessage) → Assoc TopicPartition ℕ → Assoc TopicPartition ℕ
note_time [] lowest = lowest
note_time ((ts, msgs) ∷ m) lowest = note_time m (note_all msgs lowest)

-- the loop over the worker's map of symbols
unfoldable pub note_states : List SymbolState → Assoc TopicPartition ℕ → Assoc TopicPartition ℕ
note_states [] lowest = lowest
note_states (s ∷ states) lowest =
    note_states states (note_time s.buffer_time_map (note_seq s.buffer_seq_map lowest))

unfoldable pub buffered_sources : List SymbolState → Assoc TopicPartition ℕ
buffered_sources states = note_states states []
