-- ===== src/Normalizer/Worker/Kept.antt =====
-- What `Order` does with a message: it passes it on alone, parks it, or, while a book waits for its
-- snapshot, discards it.
use market_tick_aggregator.Prelude.{
  ◌≡◌, refl, ◌∙◌, true, not, ◌&&◌, List, [], ◌∷◌, some, if◌then◌else◌, nat_eq, ◌==◌, string_eq,
  if_either, if_split, inl, inr, Among-append_last, beq_refl, ◌⊎◌,
}
use market_tick_aggregator.Prelude.Int.{pos, ltb_ℤ}
use market_tick_aggregator.Prelude.Assoc.{lookup, lookup-insert}
use market_tick_aggregator.Normalizer.State.{
  PipelineMessage, SymbolState, Ordered, Effect, snapshot_event,
}
use market_tick_aggregator.Normalizer.Orderer.Sequence.{
  park_sequence, park_resumed, order_next, sequence_orderer, is_empty,
}
use market_tick_aggregator.Normalizer.Orderer.Time.{park_ts, ts_order, messages_at}
use market_tick_aggregator.Normalizer.Orderer.Resync.{
  park_unsynced, binance_depth_order, book_update, resync_request, book_order_with_resync,
  has_drop_marker,
}
use market_tick_aggregator.Normalizer.Worker.Buffered.{IsParked}

module _ (msg : PipelineMessage) where
  abbrev pub Kept : Ordered → Type 0
  Kept o = (o.out ≡ msg ∷ []) ⊎ ((o.out ≡ []) × IsParked msg o.state)

  park_sequence-IsParked :
      (s : SymbolState) → lookup msg.seq_id (park_sequence msg s).buffer_seq_map ≡ some msg
  unfolding park_sequence
  park_sequence-IsParked s =
      lookup-insert msg.seq_id msg.seq_id msg s.buffer_seq_map ∙ rw (beq_refl msg.seq_id)

  order_next-Kept : (s : SymbolState) → Kept (order_next msg s)
  unfolding order_next
  order_next-Kept s =
      if_either Kept (ltb_ℤ (pos msg.seq_id) s.last_seq_id)
        (inr (refl, inl (park_sequence-IsParked _))) (inl refl)

  pub sequence_orderer-Kept : (s : SymbolState) → Kept (sequence_orderer msg s)
  unfolding sequence_orderer park_resumed
  sequence_orderer-Kept s =
      if_either Kept s.gap_active (inr (refl, inl (park_sequence-IsParked s))) (
        if_either Kept (is_empty s.buffer_seq_map) (order_next-Kept s) (
          inr (
            refl,
            inl (
                lookup-insert msg.seq_id msg.seq_id msg s.buffer_seq_map
                ∙ rw (beq_refl msg.seq_id)),
          )))

  park_unsynced-Kept : (s : SymbolState) → Kept (park_unsynced msg s)
  unfolding park_unsynced
  park_unsynced-Kept s = inr (refl, inl (park_sequence-IsParked s))

  after_drop :
      (s : SymbolState)
      → Kept (if s.needs_snapshot then park_unsynced msg s else sequence_orderer msg s)
  after_drop s = if_either Kept s.needs_snapshot (park_unsynced-Kept s) (sequence_orderer-Kept s)

  pub binance_depth_order-Kept : (s : SymbolState) → Kept (binance_depth_order msg s)
  unfolding binance_depth_order
  binance_depth_order-Kept s = after_drop _

  ts_order-IsParked :
      (s : SymbolState) → ((ts_order msg s).out ≡ []) × IsParked msg (ts_order msg s).state
  unfolding ts_order park_ts
  ts_order-IsParked s = (
    refl,
    inr (
        rw (lookup-insert, beq_refl msg.ts)
          (Among-append_last msg (messages_at s.buffer_time_map msg.ts))),
  )

  -- It is discarded, and the book still waits for its snapshot.
  abbrev pub Discarded : Ordered → Type 0
  Discarded o = (o.out ≡ []) × (o.state.awaiting_snapshot ≡ true)

  book_update-Kept :
      (requests : List Effect) (s : SymbolState)
      → Kept (book_update requests msg s) ⊎ Discarded (book_update requests msg s)
  unfolding book_update
  book_update-Kept requests s =
      if_split (λ o. Kept o ⊎ Discarded o) s.awaiting_snapshot (λ e. inr (refl, e))
        (λ _. inl (inr (ts_order-IsParked s)))

  book_order-Kept :
      (s : SymbolState)
      → Kept (book_order_with_resync msg s) ⊎ Discarded (book_order_with_resync msg s)
  unfolding book_order_with_resync
  book_order-Kept s =
      if_either (λ o. Kept o ⊎ Discarded o) (msg.event_type == snapshot_event) (inl (inl refl))
        (if_either (λ o. Kept o ⊎ Discarded o)
          (has_drop_marker msg.source && not s.awaiting_snapshot)
          (book_update-Kept (resync_request msg) (record s { awaiting_snapshot = true }))
          (book_update-Kept [] s))

-- A sequence orderer and the depth orderer pass a message on alone or park it, whatever their
-- state; a book orderer does so too, or discards the message and then still waits for a snapshot.
pub order-Kept :
    (msg : PipelineMessage) (s : SymbolState)
    → Kept msg (sequence_orderer msg s)
      × Kept msg (binance_depth_order msg s)
      × (Kept msg (book_order_with_resync msg s) ⊎ Discarded msg (book_order_with_resync msg s))
order-Kept msg s =
    (sequence_orderer-Kept msg s, binance_depth_order-Kept msg s, book_order-Kept msg s)
