-- ===== src/Normalizer/Worker/Flush.antt =====
-- The Binance depth stream in the worker: what processing a buffer publishes and leaves, and what
-- the events of one symbol do to its buffer.
use market_tick_aggregator.Prelude.{
  ◌≡◌, refl, ◌∙◌, ap, Bool, true, false, List, [], ◌∷◌, ◌++◌, some, if◌then◌else◌, Bool-cases, inl,
  inr,
}
use mathlib.Core.List.{append-nil, append_assoc}
use market_tick_aggregator.Normalizer.State.{PipelineMessage, SymbolState}
use market_tick_aggregator.Normalizer.Orderer.Sequence.{
  sequence_ack, sequence_orderer_cleanup, sequence_sort_buffer_flush,
}
use market_tick_aggregator.Normalizer.Orderer.Strategy.{binance_depth_orderer}
use market_tick_aggregator.Normalizer.Worker.{
  Output, message, process_messages, process_buffer, flush_buffer,
}

module _ (normalize : PipelineMessage → Bool) where
  -- The messages of a buffer that the normalizer accepts, as outputs.
  unfoldable pub published : List PipelineMessage → List Output
  published [] = []
  published (m ∷ ms) = let rest = published ms in if normalize m then message m ∷ rest else rest

  -- The buffers are empty and no gap is open; the resync flags are as they were.
  pub record Cleaned (s t : SymbolState) : Type 0 where
    pub no_ids : t.buffer_seq_id ≡ []
    pub no_messages : t.buffer_seq_map ≡ []
    pub no_gap : t.gap_active ≡ false
    pub same_needs : t.needs_snapshot ≡ s.needs_snapshot
    pub same_pending : t.snapshot_pending ≡ s.snapshot_pending

  abbrev Processed : List PipelineMessage → SymbolState → List Output → Type 0
  Processed msgs s out =
      (t : SymbolState) × (process_messages normalize binance_depth_orderer msgs s out
        ≡ some (t, out ++ published msgs))
      × (t.needs_snapshot ≡ s.needs_snapshot)
      × (t.snapshot_pending ≡ s.snapshot_pending)

  published-accepted :
      (m : PipelineMessage) (ms : List PipelineMessage) (out : List Output)
      → normalize m ≡ true
      → (out ++ (message m ∷ [])) ++ published ms ≡ out ++ published (m ∷ ms)
  unfolding published
  published-accepted m ms out a = append_assoc out (message m ∷ []) (published ms) ∙ rw a

  published-refused :
      (m : PipelineMessage) (ms : List PipelineMessage)
      → normalize m ≡ false
      → published ms ≡ published (m ∷ ms)
  unfolding published
  published-refused m ms a = rw a

  process-accepted :
      (m : PipelineMessage) (ms : List PipelineMessage) (s : SymbolState) (out : List Output)
      → normalize m ≡ true
      → process_messages normalize binance_depth_orderer (m ∷ ms) s out
        ≡ process_messages normalize binance_depth_orderer ms
            (sequence_ack s m)
            (out ++ (message m ∷ []))
  unfolding process_messages binance_depth_orderer
  process-accepted m ms s out a = rw (a, process_messages)

  process-refused :
      (m : PipelineMessage) (ms : List PipelineMessage) (s : SymbolState) (out : List Output)
      → normalize m ≡ false
      → process_messages normalize binance_depth_orderer (m ∷ ms) s out
        ≡ process_messages normalize binance_depth_orderer ms s out
  unfolding process_messages
  process-refused m ms s out a = rw (a, process_messages)

  process_messages-Processed :
      (msgs : List PipelineMessage) (s : SymbolState) (out : List Output) → Processed msgs s out
  unfolding sequence_ack
  process_messages-Processed [] s out =
      (s, unfold process_messages published in rw append-nil, refl, refl)
  process_messages-Processed (m ∷ ms) s out = elim (Bool-cases (normalize m)) [
    | inl a ↦
        let (t, e, needs, pending) =
          process_messages-Processed ms (sequence_ack s m) (out ++ (message m ∷ [])) in
        (
          t,
          process-accepted m ms s out a ∙ e ∙ ap (λ l. some (t, l)) (published-accepted m ms out a),
          needs,
          pending,
        )
    | inr a ↦
        let (t, e, needs, pending) = process_messages-Processed ms s out in
        (
          t,
          process-refused m ms s out a
              ∙ e
              ∙ ap (λ l. some (t, out ++ l)) (published-refused m ms a),
          needs,
          pending,
        )
  ]

  -- Processing a buffer of depth updates never panics: it publishes those that the normalizer
  -- accepts, in order, and leaves the buffers empty.
  pub process_buffer-Cleaned :
      (msgs : List PipelineMessage) (s : SymbolState) (out : List Output)
      → (t : SymbolState) × (process_buffer normalize binance_depth_orderer msgs s out
          ≡ some (t, out ++ published msgs))
        × Cleaned s t
  unfolding process_buffer binance_depth_orderer sequence_orderer_cleanup
  process_buffer-Cleaned msgs s out =
      let (t, e, needs, pending) = process_messages-Processed msgs s out in
      (
        sequence_orderer_cleanup t,
        rw (e, process_buffer),
        record {
          no_ids = refl;
          no_messages = refl;
          no_gap = refl;
          same_needs = needs;
          same_pending = pending;
        },
      )

  -- A FlushBuffer event publishes every parked update that the normalizer accepts and empties the
  -- buffer, also while the symbol waits for its snapshot: `needs_snapshot` stays as it was.
  pub flush_buffer-depth :
      (s : SymbolState)
      → (t : SymbolState) × (flush_buffer normalize binance_depth_orderer s
          ≡ some (t, published (sequence_sort_buffer_flush s).0))
        × Cleaned s t
  unfolding flush_buffer binance_depth_orderer sequence_sort_buffer_flush
  flush_buffer-depth s =
      let (t, e, c) =
        process_buffer-Cleaned (sequence_sort_buffer_flush s).0 (sequence_sort_buffer_flush s).1
          [] in
      (
        t,
        e,
        record {
          no_ids = c.no_ids;
          no_messages = c.no_messages;
          no_gap = c.no_gap;
          same_needs = c.same_needs;
          same_pending = c.same_pending;
        },
      )
