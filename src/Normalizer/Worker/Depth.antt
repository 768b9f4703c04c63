-- ===== src/Normalizer/Worker/Depth.antt =====
-- The life of one Binance depth symbol: every event of the worker's loop that touches its state.
use market_tick_aggregator.Prelude.{
  ◌≡◌, refl, sym, ◌∙◌, ap, Bool, true, false, not, ◌&&◌, List, [], ◌∷◌, ◌++◌, Option, none, some,
  if◌then◌else◌, nat_eq, inr, if_split, if_either, All, ℕ,
}
use market_tick_aggregator.Prelude.Sort.{sort, sort-contains, sort-StrictFrom, StrictFrom-Distinct}
use market_tick_aggregator.Normalizer.State.{PipelineMessage, SymbolState, Ordered, Effect}
use market_tick_aggregator.Normalizer.Orderer.Sequence.{
  park_sequence, sequence_orderer, sequence_sort_buffer_flush,
}
use market_tick_aggregator.Normalizer.Orderer.Sequence.Buffer.{
  SeqBuffer, empty-SeqBuffer, park-SeqBuffer, sequence_orderer-SeqBuffer,
}
use market_tick_aggregator.Normalizer.Orderer.Resync.{
  has_drop_marker, park_unsynced, binance_depth_order,
}
use market_tick_aggregator.Normalizer.Orderer.Strategy.{binance_depth_orderer}
use market_tick_aggregator.Normalizer.Worker.{
  Output, Handled, DepthSnapshot, process_message, flush_buffer, process_snapshot_ready, all_priced,
}
use market_tick_aggregator.Normalizer.Worker.Flush.{
  published, process_buffer-Cleaned, flush_buffer-depth,
}
use market_tick_aggregator.Normalizer.Worker.Snapshot.{
  SameParked, Decided, reaches, snapshot_ready-Decided,
}

-- An update while the snapshot is missing is parked, and the buffer stays consistent.
park_unsynced-SeqBuffer :
    (msg : PipelineMessage) (s : SymbolState)
    → s.needs_snapshot ≡ true
    → SeqBuffer s
    → SeqBuffer (park_unsynced msg s).state
unfolding park_unsynced park_sequence
park_unsynced-SeqBuffer msg s needs b = park-SeqBuffer msg s _ b refl refl (inr needs)

order_parts-SeqBuffer :
    (msg : PipelineMessage) (s : SymbolState)
    → SeqBuffer s
    → SeqBuffer (if s.needs_snapshot then park_unsynced msg s else sequence_orderer msg s).state
order_parts-SeqBuffer msg s b =
    if_split (λ (o : Ordered). SeqBuffer o.state) s.needs_snapshot
      (λ needs. park_unsynced-SeqBuffer msg s needs b)
      (λ synced. sequence_orderer-SeqBuffer msg s synced b)

binance_depth_order-SeqBuffer :
    (msg : PipelineMessage) (s : SymbolState)
    → SeqBuffer s
    → SeqBuffer (binance_depth_order msg s).state
unfolding binance_depth_order
binance_depth_order-SeqBuffer msg s b = order_parts-SeqBuffer msg _ (
    if_either SeqBuffer (has_drop_marker msg.source && not s.needs_snapshot)
      (record { agree = b.agree; own = b.own; distinct = b.distinct; calm = λ g n. cc n }) b)

-- A message of the symbol, its gap timer's FlushBuffer, or the result of a REST fetch (`none` if it
-- failed) with whether its protobuf can be encoded.
pub data DepthEvent : Type 0 where
  arrives : PipelineMessage → DepthEvent
  gap_timer_fires : DepthEvent
  fetch_returns : Bool → Option DepthSnapshot → DepthEvent

SameParked-SeqBuffer : (s t : SymbolState) → SeqBuffer s → SameParked s t → SeqBuffer t
unfolding sequence_sort_buffer_flush
SameParked-SeqBuffer s t b p = record {
  agree = λ id. rw (p.same_ids, p.same_map) (sort-contains id s.buffer_seq_id ∙ b.agree id);
  own = λ id msg h. b.own id msg (rw p.same_map at h);
  distinct =
      rw p.same_ids
        (StrictFrom-Distinct 0 (sort s.buffer_seq_id) (sort-StrictFrom s.buffer_seq_id b.distinct));
  calm = λ g n. p.same_map ∙ b.calm (sym p.same_gap ∙ g) (sym p.same_needs ∙ n);
}

module _ (normalize : PipelineMessage → Bool) where
  abbrev without_effects :
      Option (SymbolState × List Output × List Effect) → Option (SymbolState × List Output)
  without_effects none = none
  without_effects (some (s, out, effects)) = some (s, out)

  abbrev without_refetch : Option Handled → Option (SymbolState × List Output)
  without_refetch none = none
  without_refetch (some h) = some (h.state, h.outputs)

  abbrev pub depth_step : SymbolState → DepthEvent → Option (SymbolState × List Output)
  depth_step s (arrives msg) =
      without_effects (process_message normalize binance_depth_orderer msg s)
  depth_step s gap_timer_fires = flush_buffer normalize binance_depth_orderer s
  depth_step s (fetch_returns encodes snapshot) =
      without_refetch (process_snapshot_ready normalize binance_depth_orderer encodes snapshot s)

  -- The step succeeds and leaves a consistent buffer.
  abbrev pub Steps : Option (SymbolState × List Output) → Type 0
  Steps o = (t : SymbolState) × (out : List Output) × (o ≡ some (t, out)) × SeqBuffer t

  message-Steps :
      (msg : PipelineMessage) (s : SymbolState) (ms : List PipelineMessage)
      → (binance_depth_order msg s).out ≡ ms
      → SeqBuffer s
      → Steps (depth_step s (arrives msg))
  unfolding process_message binance_depth_orderer
  message-Steps msg s [] e b = (
    (binance_depth_order msg s).state,
    [],
    rw (e, process_message),
    binance_depth_order-SeqBuffer msg s b,
  )
  message-Steps msg s (m ∷ ms) e b =
      let (t, done, c) =
        process_buffer-Cleaned normalize (m ∷ ms) (binance_depth_order msg s).state [] in
      (
        t,
        published normalize (m ∷ ms),
        rw (e, process_message) (rw done),
        empty-SeqBuffer t c.no_ids c.no_messages,
      )

  SeqBuffer-Decided :
      (encodes reached : Bool) (last : ℕ) (kept : List PipelineMessage) (s : SymbolState)
      (h : Handled)
      → SeqBuffer s
      → Decided normalize encodes s reached last kept h
      → SeqBuffer h.state
  SeqBuffer-Decided encodes true last kept s h b d = d.4
  SeqBuffer-Decided encodes false last kept s h b d = SameParked-SeqBuffer s h.state b d.3

  -- A snapshot that was fetched has a price and a volume in each level.
  abbrev pub Priced : DepthEvent → Type 0
  Priced (fetch_returns encodes (some snapshot)) =
      (all_priced snapshot.bids ≡ true) × (all_priced snapshot.asks ≡ true)
  Priced ev = Unit {0}

  fetch-Steps :
      (encodes : Bool) (snapshot : Option DepthSnapshot) (s : SymbolState)
      → Priced (fetch_returns encodes snapshot)
      → SeqBuffer s
      → Steps (depth_step s (fetch_returns encodes snapshot))
  unfolding process_snapshot_ready
  fetch-Steps encodes none s priced b = (
    record s { snapshot_pending = false },
    [],
    refl,
    record { agree = b.agree; own = b.own; distinct = b.distinct; calm = b.calm },
  )
  fetch-Steps encodes (some snapshot) s priced b =
      let (kept, beyond, (h, e, decided)) =
        snapshot_ready-Decided normalize encodes s snapshot b priced.0 priced.1 in
      (
        h.state,
        h.outputs,
        ap (λ (o : Option Handled). without_refetch o) e,
        SeqBuffer-Decided encodes (reaches snapshot.last_update_id kept) snapshot.last_update_id
            kept s h b decided,
      )

  depth_step-Steps :
      (s : SymbolState) (ev : DepthEvent) → Priced ev → SeqBuffer s → Steps (depth_step s ev)
  depth_step-Steps s (arrives msg) priced b = message-Steps msg s _ refl b
  depth_step-Steps s gap_timer_fires priced b =
      let (t, e, c) = flush_buffer-depth normalize s in
      (t, _, e, empty-SeqBuffer t c.no_ids c.no_messages)
  depth_step-Steps s (fetch_returns encodes snapshot) priced b =
      fetch-Steps encodes snapshot s priced b

  -- The events of one symbol in turn, with everything that they publish.
  unfoldable pub depth_run : SymbolState → List DepthEvent → Option (SymbolState × List Output)
  depth_run s [] = some (s, [])
  depth_run s (ev ∷ evs) = elim (depth_step s ev) [
    | none ↦ none
    | some (t, out) ↦ elim (depth_run t evs) [
      | none ↦ none
      | some (u, rest) ↦ some (u, out ++ rest)
    ]
  ]

  -- From a consistent buffer, over any sequence of messages, gap timers and fetch results of a Binance
  -- depth symbol, with a normalizer that returns and with fetched snapshots whose levels have a price
  -- and a volume: the worker does not panic, and the buffer is consistent afterwards. The id list and the
  -- map hold the same ids, each once, each message under its own id, and nothing is parked unless a gap
  -- is open or the snapshot is missing.
  pub depth_run-SeqBuffer :
      (s : SymbolState) (evs : List DepthEvent)
      → All Priced evs
      → SeqBuffer s
      → Steps (depth_run s evs)
  unfolding depth_run
  depth_run-SeqBuffer s [] priced b = (s, [], refl, b)
  depth_run-SeqBuffer s (ev ∷ evs) priced b =
      let (t, out, e, c) = depth_step-Steps s ev priced.0 b in
      let (u, rest, e', d) = depth_run-SeqBuffer t evs priced.1 c in
      (u, out ++ rest, rw (e, depth_run) (rw e'), d)
