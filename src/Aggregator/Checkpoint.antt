-- ===== src/Aggregator/Checkpoint.antt =====
-- aggregator/worker/worker.go, the at-least-once mode: ticks change the symbols' states, changed
-- symbols are saved in batches, and input offsets are committed once a batch is acked. The worker's
-- goroutine runs each function whole. What a tick and a flush do to a symbol's windows is a parameter,
-- which Aggregator/Windows fills.
pub mod Covers
pub mod Covered
pub mod Steps
pub mod Batches
pub mod Acked
pub mod Run
pub mod Logged
pub mod Erased
pub mod Committed
mod Tests
use market_tick_aggregator.Prelude.{
  ℕ, Bool, true, false, not, ◌&&◌, ◌||◌, List, [], ◌∷◌, ◌++◌, Option, none, some, leb,
  if◌then◌else◌, or_else, contains, ◌==◌, Eq, ◌≡◌,
}
use market_tick_aggregator.Prelude.Assoc.{Assoc, lookup, insert, keys}
use market_tick_aggregator.Kafka.{Text, TopicPartition, tp_eq}

-- The windows of a symbol: the test whether a tick was applied before, what an update by a tick leaves
-- (the tick noted as applied), and what a flush of the window with an id leaves.
pub record Effects (S T : Type 0) : Type 0 where
  pub already_applied : T → S → Bool
  pub update : T → S → S
  pub flush : Text → S → S

-- A batch in flight: the positions polled when it was taken, and the symbols' encoded states.
pub record Batch (K S : Type 0) : Type 0 where
  pub positions : Assoc TopicPartition ℕ
  pub entries : Assoc K S

pub record AggregatorWorker (K S : Type 0) : Type 0 where
  pub symbol_state : Assoc K S
  pub dirty : List K
  pub in_flight : Option (Batch K S)
  pub last_committed : Assoc TopicPartition ℕ

-- if prev, ok := lastCommitted[k]; ok && off <= prev { continue }
abbrev advances : Option ℕ → ℕ → Bool
advances none off = true
advances (some prev) off = not (leb off prev)

-- What is committed, and the map of what was committed last.
unfoldable pub commit_positions :
    Assoc TopicPartition ℕ
    → Assoc TopicPartition ℕ
    → Assoc TopicPartition ℕ × Assoc TopicPartition ℕ
commit_positions [] last = ([], last)
commit_positions ((k, off) ∷ positions) last =
    let (advanced, last') = commit_positions positions (insert k off last) in
    let (advanced_rest, last_rest) = commit_positions positions last in
    if advances (lookup k last) off
    then ((k, off) ∷ advanced, last')
    else (advanced_rest, last_rest)

-- `restore k` is the state that a symbol starts with: its last checkpoint, or fresh windows.
module _ {K S T : Type 0} ⦃e : Eq K⦄ (x : Effects S T) (restore : K → S) where
  abbrev pub state_of : Assoc K S → K → S
  state_of m k = or_else (lookup k m) (restore k)

  unfoldable pub mark_dirty : K → List K → List K
  mark_dirty k ks = if contains k ks then ks else k ∷ ks

  -- A record that cannot be decoded changes nothing, and is no event here.
  unfoldable pub process_tick : K → T → AggregatorWorker K S → AggregatorWorker K S
  process_tick k t w =
      let s = state_of w.symbol_state k in
      if x.already_applied t s
      then record w { symbol_state = insert k s w.symbol_state }
      else record w {
        symbol_state = insert k (x.update t s) w.symbol_state;
        dirty = mark_dirty k w.dirty;
      }

  unfoldable pub flush_states : Text → Assoc K S → Assoc K S
  flush_states id [] = []
  flush_states id ((k, s) ∷ m) = (k, x.flush id s) ∷ flush_states id m

  -- every symbol that there is becomes dirty: all have the same windows, so none lacks the one flushed
  unfoldable pub flush_window : Text → AggregatorWorker K S → AggregatorWorker K S
  flush_window id w = record w {
    symbol_state = flush_states id w.symbol_state;
    dirty = keys w.symbol_state ++ w.dirty;
  }

  unfoldable pub encode_dirty : Assoc K S → List K → Assoc K S
  encode_dirty m [] = []
  encode_dirty m (k ∷ ks) = (k, state_of m k) ∷ encode_dirty m ks

  -- with an empty set of changed symbols, the positions are committed at once
  abbrev pub start_batch :
      Assoc TopicPartition ℕ
      → Bool
      → List K
      → AggregatorWorker K S
      → AggregatorWorker K S × Option (Assoc TopicPartition ℕ)
  start_batch positions encodes [] w =
      let (advanced, last) = commit_positions positions w.last_committed in
      (record w { last_committed = last }, some advanced)
  start_batch positions encodes (k ∷ ks) w =
      if encodes
      then (
        record w {
          in_flight =
              some
                (record { positions = positions; entries = encode_dirty w.symbol_state (k ∷ ks) });
          dirty = [];
        },
        none,
      )
      else (w, none)

  -- One batch at a time. `encodes` is whether every changed symbol could be encoded.
  abbrev pub checkpoint_when :
      Assoc TopicPartition ℕ
      → Bool
      → Option (Batch K S)
      → AggregatorWorker K S
      → AggregatorWorker K S × Option (Assoc TopicPartition ℕ)
  checkpoint_when positions encodes (some b) w = (w, none)
  checkpoint_when positions encodes none w = start_batch positions encodes w.dirty w

  unfoldable pub checkpoint_dirty :
      Assoc TopicPartition ℕ
      → Bool
      → AggregatorWorker K S
      → AggregatorWorker K S × Option (Assoc TopicPartition ℕ)
  checkpoint_dirty positions encodes w = checkpoint_when positions encodes w.in_flight w

  -- The end of the batch in flight.
  unfoldable pub finish_batch :
      Batch K S
      → Bool
      → AggregatorWorker K S
      → AggregatorWorker K S × Option (Assoc TopicPartition ℕ)
  finish_batch b failed w =
      let (advanced, last) = commit_positions b.positions w.last_committed in
      if failed
      then (record w { in_flight = none; dirty = keys b.entries ++ w.dirty }, none)
      else (record w { in_flight = none; last_committed = last }, some advanced)

  -- What the checkpoint topic holds after each record of a batch was acked or not.
  unfoldable pub write_acked : Assoc K S → List Bool → Assoc K S → Assoc K S
  write_acked [] acks stored = stored
  write_acked (entry ∷ entries) [] stored = stored
  write_acked ((k, s) ∷ entries) (acked ∷ acks) stored =
      write_acked entries acks (if acked then insert k s stored else stored)

  -- if err != nil { failed.Store(true) }
  unfoldable pub any_failed : Assoc K S → List Bool → Bool
  any_failed [] acks = false
  any_failed (entry ∷ entries) [] = true
  any_failed (entry ∷ entries) (acked ∷ acks) = not acked || any_failed entries acks
