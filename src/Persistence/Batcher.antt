-- ===== src/Persistence/Batcher.antt =====
-- persistence/batcher/batcher.go: rows are gathered and written in one transaction; corrupt ones go to
-- the dead letter queue, and the consumer's offsets move on after that. The batcher's goroutine runs
-- each function whole. The sink, the dead letter queue and the row check are parameters.
pub mod Flush
pub mod Clock
mod Tests
use market_tick_aggregator.Prelude.{
  ℕ, ◌+◌, Bool, true, false, not, ◌&&◌, List, [], ◌∷◌, ◌++◌, Option, none, some, leb, if◌then◌else◌,
  max, or_else, nat_eq, length, map,
}
use market_tick_aggregator.Prelude.Assoc.{Assoc, lookup, insert}

pub record BatchItem (T : Type 0) : Type 0 where
  pub item : T
  pub partition : ℕ
  pub offset : ℕ

pub record Batcher (T : Type 0) : Type 0 where
  pub items : List (BatchItem T)
  pub linger_armed : Bool
  pub batch_size : ℕ

-- How the calls of one flush go: whether the dead letter queue takes a row, and whether each step of
-- the transaction succeeds.
pub record Calls (T : Type 0) : Type 0 where
  pub handle_event_error : T → Bool
  pub init_tx : Bool
  pub flush_fn : Bool
  pub commit : Bool

-- What a flush does: the rows sent to the dead letter queue, the rows committed, and the offsets that
-- are marked as processed.
pub record Flushed (T : Type 0) : Type 0 where
  pub batcher : Batcher T
  pub failed : Bool
  pub dead : List T
  pub committed : List T
  pub marked : Option (Assoc ℕ ℕ)

-- What the loop over the batch leaves: it stops at a row that the queue refuses.
pub record Screened (T : Type 0) : Type 0 where
  pub refused : Bool
  pub valid : List T
  pub dead : List T
  pub offsets : Assoc ℕ ℕ

-- m[p] = max(m[p], off), a missing entry being 0
unfoldable pub note_max : ℕ → ℕ → Assoc ℕ ℕ → Assoc ℕ ℕ
note_max p off m = insert p (max (or_else (lookup p m) 0) off) m

unfoldable pub new_batcher : (T : Type 0) → ℕ → Batcher T
new_batcher T batch_size = record { items = []; linger_armed = false; batch_size = batch_size }

module _ {T : Type 0} (invalid : T → Bool) where
  unfoldable pub arm_linger : Batcher T → Batcher T
  arm_linger b = record b { linger_armed = true }

  unfoldable pub stop_linger : Batcher T → Batcher T
  stop_linger b = record b { linger_armed = false }

  -- the loop over the items
  unfoldable pub screen : Calls T → List (BatchItem T) → List T → List T → Assoc ℕ ℕ → Screened T
  screen calls [] valid dead offsets = record {
    refused = false;
    valid = valid;
    dead = dead;
    offsets = offsets;
  }
  screen calls (x ∷ xs) valid dead offsets = elim (invalid x.item) [
    | true ↦ elim (calls.handle_event_error x.item) [
      | true ↦ screen calls xs valid (dead ++ (x.item ∷ [])) (note_max x.partition x.offset offsets)
      | false ↦ record { refused = true; valid = valid; dead = dead; offsets = offsets }
    ]
    | false ↦ screen calls xs (valid ++ (x.item ∷ [])) dead offsets
  ]

  unfoldable pub note_all : List (BatchItem T) → Assoc ℕ ℕ → Assoc ℕ ℕ
  note_all [] offsets = offsets
  note_all (x ∷ xs) offsets = note_all xs (note_max x.partition x.offset offsets)

  abbrev pub cleared : Batcher T → Batcher T
  cleared b = record b { items = []; linger_armed = false }

  -- a return with an error: the batch stays as it is
  abbrev pub kept : Batcher T → List T → Flushed T
  kept b dead = record { batcher = b; failed = true; dead = dead; committed = []; marked = none }

  -- the transaction, for the valid rows
  unfoldable pub write : Calls T → Screened T → Batcher T → Flushed T
  write calls s b =
      if calls.init_tx && (calls.flush_fn && calls.commit)
      then record {
        batcher = cleared b;
        failed = false;
        dead = s.dead;
        committed = s.valid;
        marked = some (note_all b.items s.offsets);
      }
      else kept b s.dead

  unfoldable pub flush_screened : Calls T → Screened T → Batcher T → Flushed T
  flush_screened calls s b = if s.refused then kept b s.dead else elim s.valid [
    | [] ↦ record {
      batcher = cleared b;
      failed = false;
      dead = s.dead;
      committed = [];
      marked = some s.offsets;
    }
    | x ∷ xs ↦ write calls s b
  ]

  unfoldable pub flush : Calls T → Batcher T → Flushed T
  flush calls b = flush_screened calls (screen calls b.items [] [] []) b

  abbrev pub idle : Batcher T → Flushed T
  idle b = record { batcher = b; failed = false; dead = []; committed = []; marked = none }

  unfoldable pub handle_batch_and_flush : Calls T → BatchItem T → Batcher T → Flushed T
  handle_batch_and_flush calls x b =
      let b' = arm_linger (record b { items = b.items ++ (x ∷ []) }) in
      if leb b'.batch_size (length b'.items) then flush calls b' else idle b'

  abbrev pub flush_unless_empty : Calls T → Batcher T → List (BatchItem T) → Flushed T
  flush_unless_empty calls b [] = idle b
  flush_unless_empty calls b (x ∷ xs) = flush calls b

  unfoldable pub flush_if_needed : Calls T → Batcher T → Flushed T
  flush_if_needed calls b = flush_unless_empty calls b b.items

  -- the linger timer in `Run`: a flush that fails is tried again after another wait
  unfoldable pub linger_fires : Calls T → Batcher T → Flushed T
  linger_fires calls b =
      let f = flush_if_needed calls (record b { linger_armed = false }) in
      if f.failed then record f { batcher = arm_linger f.batcher } else f
