-- ===== src/Aggregator/Checkpoint/Erased.antt =====
-- What the worker's functions make of states that carry a log, with the logs taken off.
use market_tick_aggregator.Prelude.{
  ◌≡◌, refl, sym, ap, ◌∙◌, Bool, true, false, List, [], ◌∷◌, Option, none, some, Eq, ◌==◌,
  Bool-cases, inl, inr,
}
use market_tick_aggregator.Prelude.Assoc.{Assoc, lookup, insert, keys}
use market_tick_aggregator.Kafka.{Text}
use market_tick_aggregator.Aggregator.Checkpoint.{
  Effects, Batch, AggregatorWorker, state_of, flush_states, encode_dirty, write_acked, any_failed,
}
use market_tick_aggregator.Aggregator.Checkpoint.Covered.{World}
use market_tick_aggregator.Aggregator.Checkpoint.Logged.{LoggedState, log_change, logged, unlogged}

module _ {K S T : Type 0} ⦃e : Eq K⦄ (x : Effects S T) (restore : K → S) where
  abbrev fresh : K → LoggedState x
  fresh k = unlogged x (restore k)

  unfoldable pub erase : Assoc K (LoggedState x) → Assoc K S
  erase [] = []
  erase ((k, s) ∷ m) = (k, s.state) ∷ erase m

  abbrev pub erase_batch : Option (Batch K (LoggedState x)) → Option (Batch K S)
  erase_batch none = none
  erase_batch (some b) = some (record { positions = b.positions; entries = erase b.entries })

  abbrev pub erase_worker : AggregatorWorker K (LoggedState x) → AggregatorWorker K S
  erase_worker w = record {
    symbol_state = erase w.symbol_state;
    dirty = w.dirty;
    in_flight = erase_batch w.in_flight;
    last_committed = w.last_committed;
  }

  pub state_of-erase :
      (k : K) (m : Assoc K (LoggedState x))
      → state_of x restore (erase m) k ≡ (state_of (logged x) fresh m k).state
  unfolding erase lookup unlogged
  state_of-erase k [] = refl
  state_of-erase k ((j, s) ∷ m) = elim (Bool-cases (j == k)) [
    | inl same ↦ rw same
    | inr other ↦ rw other (state_of-erase k m)
  ]

  pub erase-insert :
      (k : K) (s : LoggedState x) (m : Assoc K (LoggedState x))
      → erase (insert k s m) ≡ insert k s.state (erase m)
  unfolding erase insert
  erase-insert k s [] = refl
  erase-insert k s ((j, u) ∷ m) = elim (Bool-cases (j == k)) [
    | inl same ↦ rw same
    | inr other ↦ rw other (ap (λ (l : Assoc K S). (j, u.state) ∷ l) (erase-insert k s m))
  ]

  pub keys-erase : (m : Assoc K (LoggedState x)) → keys (erase m) ≡ keys m
  unfolding erase
  keys-erase [] = refl
  keys-erase ((k, s) ∷ m) = ap (λ (l : List K). k ∷ l) (keys-erase m)

  pub erase-flush_states :
      (id : Text) (m : Assoc K (LoggedState x))
      → erase (flush_states (logged x) fresh id m) ≡ flush_states x restore id (erase m)
  unfolding erase flush_states log_change
  erase-flush_states id [] = refl
  erase-flush_states id ((k, s) ∷ m) =
      ap (λ (l : Assoc K S). (k, x.flush id s.state) ∷ l) (erase-flush_states id m)

  pub erase-encode_dirty :
      (m : Assoc K (LoggedState x)) (ks : List K)
      → erase (encode_dirty (logged x) fresh m ks) ≡ encode_dirty x restore (erase m) ks
  unfolding erase encode_dirty
  erase-encode_dirty m [] = refl
  erase-encode_dirty m (k ∷ ks) = rw (state_of-erase k m, sym (erase-encode_dirty m ks))

  pub erase-write_acked :
      (es : Assoc K (LoggedState x)) (acks : List Bool) (m : Assoc K (LoggedState x))
      → erase (write_acked (logged x) fresh es acks m)
        ≡ write_acked x restore (erase es) acks (erase m)
  unfolding erase write_acked
  erase-write_acked [] acks m = refl
  erase-write_acked (entry ∷ es) [] m = refl
  erase-write_acked ((k, s) ∷ es) (true ∷ acks) m =
      erase-write_acked es acks (insert k s m)
      ∙ ap (write_acked x restore (erase es) acks) (erase-insert k s m)
  erase-write_acked ((k, s) ∷ es) (false ∷ acks) m = erase-write_acked es acks m

  pub any_failed-erase :
      (es : Assoc K (LoggedState x)) (acks : List Bool)
      → any_failed x restore (erase es) acks ≡ any_failed (logged x) fresh es acks
  unfolding erase any_failed
  any_failed-erase [] acks = refl
  any_failed-erase (entry ∷ es) [] = refl
  any_failed-erase (entry ∷ es) (true ∷ acks) = any_failed-erase es acks
  any_failed-erase (entry ∷ es) (false ∷ acks) = refl

  abbrev pub erase_world : World (logged x) fresh → World x restore
  erase_world v = record {
    worker = erase_worker v.worker;
    stored = erase v.stored;
    processed = v.processed;
    batched = v.batched;
    committed = v.committed;
  }
