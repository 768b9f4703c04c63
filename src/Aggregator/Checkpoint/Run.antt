-- ===== src/Aggregator/Checkpoint/Run.antt =====
-- Any sequence of ticks, flushes, checkpoint timers and acks.
use market_tick_aggregator.Prelude.{
  ℕ, ◌≡◌, refl, Bool, List, [], ◌∷◌, Option, none, some, Eq, Among,
}
use market_tick_aggregator.Prelude.Assoc.{Assoc, lookup}
use market_tick_aggregator.Kafka.{Text, TopicPartition}
use market_tick_aggregator.Aggregator.Checkpoint.Covers.{Covers}
use market_tick_aggregator.Aggregator.Checkpoint.{Effects, Batch, checkpoint_when}
use market_tick_aggregator.Aggregator.Checkpoint.Covered.{World, saved, Covered}
use market_tick_aggregator.Aggregator.Checkpoint.Steps.{
  tick_step, tick-Covered, flush_step, flush-Covered,
}
use market_tick_aggregator.Aggregator.Checkpoint.Batches.{recorded, start-Covered}
use market_tick_aggregator.Aggregator.Checkpoint.Acked.{ended, ended-Covered}

-- A tick of a symbol, the flush of the window with an id, the checkpoint timer with the positions polled by then and
-- whether every changed symbol can be encoded, or the end of the batch in flight with the outcome of
-- each of its records.
pub data Event (K T : Type 0) : Type 0 where
  tick : K → T → Event K T
  flush_due : Text → Event K T
  checkpoint_due : Assoc TopicPartition ℕ → Bool → Event K T
  batch_ends : List Bool → Event K T

module _ {K S T : Type 0} ⦃e : Eq K⦄ (x : Effects S T) (restore : K → S) where
  abbrev pub checkpoint_step :
      Assoc TopicPartition ℕ → Bool → World x restore → Option (Batch K S) → World x restore
  checkpoint_step positions encodes v none =
      recorded x restore v (checkpoint_when x restore positions encodes none v.worker)
  checkpoint_step positions encodes v (some b) = record v {
    worker = (checkpoint_when x restore positions encodes (some b) v.worker).0;
  }

  abbrev pub ack_step : List Bool → World x restore → Option (Batch K S) → World x restore
  ack_step acks v none = v
  ack_step acks v (some b) = ended x restore b acks v

  abbrev pub step : World x restore → Event K T → World x restore
  step v (tick k t) = tick_step x restore k t v
  step v (flush_due id) = flush_step x restore id v
  step v (checkpoint_due positions encodes) = checkpoint_step positions encodes v v.worker.in_flight
  step v (batch_ends acks) = ack_step acks v v.worker.in_flight

  -- A worker that has just started.
  abbrev pub started : World x restore
  started = record {
    worker = record { symbol_state = []; dirty = []; in_flight = none; last_committed = [] };
    stored = [];
    processed = [];
    batched = [];
    committed = [];
  }

  started-Covered : Covered x restore started
  unfolding lookup
  started-Covered = record {
    taken = λ k t a. elim a [ ];
    behind = λ k t h. h;
    clean = λ k d p t h. h;
    unique = λ k s a. elim a [ ];
    newer = λ k s p. cc p;
    older = λ k s p. cc p;
    same = λ k s p. cc p;
    held = λ k t a. elim a [ ];
    safe = λ k t a. elim a [ ];
  }

  checkpoint-Covered :
      (positions : Assoc TopicPartition ℕ) (encodes : Bool) (v : World x restore)
      (o : Option (Batch K S))
      → v.worker.in_flight ≡ o
      → Covered x restore v
      → Covered x restore (checkpoint_step positions encodes v o)
  checkpoint-Covered positions encodes v none i c =
      start-Covered x restore positions encodes v v.worker.dirty refl i c
  checkpoint-Covered positions encodes v (some b) i c = c

  ack-Covered :
      (acks : List Bool) (v : World x restore) (o : Option (Batch K S))
      → v.worker.in_flight ≡ o
      → Covered x restore v
      → Covered x restore (ack_step acks v o)
  ack-Covered acks v none i c = c
  ack-Covered acks v (some b) i c = ended-Covered x restore b acks v c i

  step-Covered :
      (v : World x restore) (ev : Event K T) → Covered x restore v → Covered x restore (step v ev)
  step-Covered v (tick k t) c = tick-Covered x restore k t v c
  step-Covered v (flush_due id) c = flush-Covered x restore id v c
  step-Covered v (checkpoint_due positions encodes) c =
      checkpoint-Covered positions encodes v v.worker.in_flight refl c
  step-Covered v (batch_ends acks) c = ack-Covered acks v v.worker.in_flight refl c

  unfoldable pub run : World x restore → List (Event K T) → World x restore
  run v [] = v
  run v (ev ∷ evs) = run (step v ev) evs

  run-Covered :
      (evs : List (Event K T)) (v : World x restore)
      → Covered x restore v
      → Covered x restore (run v evs)
  unfolding run
  run-Covered [] v c = c
  run-Covered (ev ∷ evs) v c = run-Covered evs (step v ev) (step-Covered v ev c)

  -- The stored state of a symbol has taken each of its ticks that a commit passed.
  pub committed-Covers :
      (evs : List (Event K T)) (k : K) (t : T)
      → Among (k, t) (run started evs).committed
      → Covers x (saved x restore (run started evs) k) t
  committed-Covers evs k t a = (run-Covered evs started started-Covered).safe k t a
