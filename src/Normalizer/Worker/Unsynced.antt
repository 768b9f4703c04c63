-- ===== src/Normalizer/Worker/Unsynced.antt =====
-- A gap timer that was started before a drop marker, and fires while the snapshot is missing.
use market_tick_aggregator.Prelude.{
  ℕ, ◌≡◌, sym, ap, ◌∙◌, Bool, true, List, [], ◌∷◌, Option, some, contains, nat_eq, is_some,
  Bool-cases, inl, inr, Among, here, there,
}
use market_tick_aggregator.Prelude.Assoc.{lookup}
use market_tick_aggregator.Prelude.Sort.{sort, sort-contains}
use market_tick_aggregator.Normalizer.State.{PipelineMessage, SymbolState}
use market_tick_aggregator.Normalizer.Orderer.Sequence.{sequence_sort_buffer_flush}
use market_tick_aggregator.Normalizer.Orderer.Sequence.Buffer.{SeqBuffer, pick-Among}
use market_tick_aggregator.Normalizer.Orderer.Strategy.{binance_depth_orderer}
use market_tick_aggregator.Normalizer.Worker.{Output, message, flush_buffer}
use market_tick_aggregator.Normalizer.Worker.Flush.{published, flush_buffer-depth}

module _ (normalize : PipelineMessage → Bool) where
  published-Among :
      (msg : PipelineMessage) (ms : List PipelineMessage)
      → Among msg ms
      → normalize msg ≡ true
      → Among (message msg) (published normalize ms)
  unfolding published
  published-Among msg [] a h = elim a [ ]
  published-Among msg (m ∷ ms) (here e) h =
      let h' : normalize m ≡ true = ap normalize (sym e) ∙ h in rw h' (here (ap message e))
  published-Among msg (m ∷ ms) (there a) h = elim (Bool-cases (normalize m)) [
    | inl ok ↦ rw ok (there (published-Among msg ms a h))
    | inr bad ↦ rw bad (published-Among msg ms a h)
  ]

  -- A FlushBuffer event that comes while a depth symbol with a consistent buffer waits for its
  -- snapshot publishes every parked update that the normalizer accepts, although the snapshot has not
  -- been published, and drops it from the buffer; the symbol still waits.
  pub unsynced_flush-Among :
      (s : SymbolState) (id : ℕ) (msg : PipelineMessage)
      → SeqBuffer s
      → s.needs_snapshot ≡ true
      → lookup id s.buffer_seq_map ≡ some msg
      → normalize msg ≡ true
      → (t : SymbolState) × (out : List Output) × (flush_buffer normalize binance_depth_orderer s
          ≡ some (t, out))
        × Among (message msg) out
        × (t.buffer_seq_map ≡ [])
        × (t.needs_snapshot ≡ true)
  unfolding sequence_sort_buffer_flush
  unsynced_flush-Among s id msg b needs found accepted =
      let (t, e, c) = flush_buffer-depth normalize s in
      let listed : contains id (sort s.buffer_seq_id) ≡ true =
        sort-contains id s.buffer_seq_id
        ∙ b.agree id
        ∙ ap (λ (o : Option PipelineMessage). is_some o) found in
      (
        t,
        published normalize (sequence_sort_buffer_flush s).0,
        e,
        published-Among msg (sequence_sort_buffer_flush s).0
            (pick-Among s.buffer_seq_map id msg (sort s.buffer_seq_id) found listed) accepted,
        c.no_messages,
        c.same_needs ∙ needs,
      )
