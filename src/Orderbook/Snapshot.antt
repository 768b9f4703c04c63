-- ===== src/Orderbook/Snapshot.antt =====
-- orderbook/worker/worker.go: the snapshot of the one symbol of a worker, from the request to Redis. The
-- worker's loop, the goroutine that persists and the one that takes the coordinator's acks share the
-- symbol's state; each event runs whole. Map keys are strings over the reused key buffer: they read as
-- the symbol's key only as long as no record of another symbol comes, and with such a record this model
-- ends.
pub mod Stuck
mod Tests
use market_tick_aggregator.Prelude.{
  ℕ, zero, suc, ◌+◌, ◌≡◌, Bool, true, false, List, [], ◌∷◌, ◌++◌, Option, none, some, if◌then◌else◌,
  length, ltb, leb, Eq, ◌==◌, nat_eq, list_eq, ◌&&◌, ◌||◌, not, or_else,
}
use market_tick_aggregator.Prelude.Assoc.{Assoc, bind_value}
use market_tick_aggregator.Kafka.{Text}
use market_tick_aggregator.Orderbook.OrderedTree.{PriceOrder, Levels, OrderedTree}
use market_tick_aggregator.Orderbook.Book.{top_n}
use market_tick_aggregator.Orderbook.Worker.{
  SymbolState, DispatchRecord, CommittedMap, same_map, own_map, offset_at, apply_update, buffer_key,
}

pub record OrderBookSnapshot (P Q : Type 0) : Type 0 where
  pub exchange : Text
  pub symbol : Text
  pub partition_offsets : Assoc ℕ ℕ
  pub timestamp_millis : ℕ
  pub snapshot_bids : Levels P Q
  pub snapshot_asks : Levels P Q

-- for partition := range snapshotOffsetMap
unfoldable pub can_snapshot : Assoc ℕ ℕ → Assoc ℕ ℕ → Bool
can_snapshot [] committed = true
can_snapshot ((p, off) ∷ offs) committed =
    if ltb (offset_at p committed) off then false else can_snapshot offs committed

-- both sides are empty
abbrev pub is_empty_snapshot : {P Q : Type 0} → OrderBookSnapshot P Q → Bool
is_empty_snapshot snap = (length snap.snapshot_bids == 0) && (length snap.snapshot_asks == 0)

module _ {P Q : Type 0} ⦃e : Eq P⦄ ⦃o : PriceOrder P⦄ (x : OrderedTree P Q) (is_removal : Q → Bool)
    (flush_depth : ℕ) (key : Text) where
  -- `key` is the symbol's key. Its state, its entry of SnapshotStateMap, its messages in SnapshotChannel, the
  -- SnapshotPersistedEvents that wait in UpdateChannel, and what was written to Redis, newest first.
  pub record Slot : Type 0 where
    pub state : SymbolState x is_removal
    pub snapshot : Option (OrderBookSnapshot P Q)
    pub channel : List (OrderBookSnapshot P Q)
    pub persisted_events : ℕ
    pub saved : List (OrderBookSnapshot P Q)

  unfoldable pub clone_light_weight : ℕ → SymbolState x is_removal → OrderBookSnapshot P Q
  clone_light_weight now st = record {
    exchange = st.exchange;
    symbol = st.symbol;
    partition_offsets = or_else st.last_processed_offset [];
    timestamp_millis = now;
    snapshot_bids = top_n x is_removal flush_depth st.orderbook.bids;
    snapshot_asks = top_n x is_removal flush_depth st.orderbook.asks;
  }

  abbrev pub requested : Bool → ℕ → Slot → Slot
  requested true now slot = slot
  requested false now slot = record slot {
    snapshot = some (clone_light_weight now slot.state);
    state = record slot.state { snapshot_pending = true };
  }

  unfoldable pub handle_snapshot_request : ℕ → Slot → Slot
  handle_snapshot_request now slot = requested slot.state.snapshot_pending now slot

  -- LastCommittedOffset, read through the map that it is
  abbrev pub committed_of : SymbolState x is_removal → Assoc ℕ ℕ
  committed_of st = elim st.last_committed_offset [
    | same_map ↦ or_else st.last_processed_offset []
    | own_map m ↦ m
  ]

  abbrev pub dispatched : Bool → Option (OrderBookSnapshot P Q) → Slot → Slot
  dispatched room none slot = slot
  dispatched room (some snap) slot =
      if slot.state.snapshot_pending
        && (can_snapshot snap.partition_offsets (committed_of slot.state) && room)
      then record slot { channel = slot.channel ++ snap ∷ [] }
      else slot

  -- `room` is whether the channel takes the message.
  unfoldable pub evaluate_and_dispatch_snapshot : Bool → Slot → Slot
  evaluate_and_dispatch_snapshot room slot = dispatched room slot.snapshot slot

  abbrev pub persisted : Bool → Bool → List (OrderBookSnapshot P Q) → Slot → Slot
  persisted stores room [] slot = slot
  persisted stores room (snap ∷ rest) slot =
      if is_empty_snapshot snap || not stores then record slot { channel = rest } else record slot {
        channel = rest;
        saved = snap ∷ slot.saved;
        persisted_events = if room then slot.persisted_events + 1 else slot.persisted_events;
      }

  -- One round of the loop: whether the snapshot is encoded and Redis takes it, and whether the update
  -- channel has room for the event.
  unfoldable pub snapshot_persist_loop : Bool → Bool → Slot → Slot
  snapshot_persist_loop stores room slot = persisted stores room slot.channel slot

  abbrev pub handled : ℕ → Slot → Slot
  handled zero slot = slot
  handled (suc n) slot = record slot {
    persisted_events = n;
    state = record slot.state { snapshot_pending = false };
    snapshot = none;
  }

  -- the next SnapshotPersistedEvent, if there is one
  unfoldable pub handle_snapshot_persisted : Slot → Slot
  handle_snapshot_persisted slot = handled slot.persisted_events slot

  unfoldable pub process_update_ack : Assoc ℕ ℕ → Slot → Slot
  process_update_ack offsets slot = record slot {
    state = record slot.state { last_committed_offset = own_map offsets };
  }

  abbrev updated : Option (SymbolState x is_removal) → Slot → Option Slot
  updated none slot = none
  updated (some st) slot = some (record slot { state = st })

  pub data Event : Type 0 where
    book_update : DispatchRecord P Q → Event
    snapshot_request : ℕ → Event
    snapshot_execute : Bool → Event
    persist_round : Bool → Bool → Event
    snapshot_persisted : Event
    update_ack : Assoc ℕ ℕ → Event

  -- none is a panic, or a record of a symbol with another key
  unfoldable pub step : Event → Slot → Option Slot
  step (book_update rec) slot =
      if buffer_key rec.exchange rec.symbol == key
      then updated (apply_update x is_removal rec slot.state) slot
      else none
  step (snapshot_request now) slot = some (handle_snapshot_request now slot)
  step (snapshot_execute room) slot = some (evaluate_and_dispatch_snapshot room slot)
  step (persist_round stores room) slot = some (snapshot_persist_loop stores room slot)
  step snapshot_persisted slot = some (handle_snapshot_persisted slot)
  step (update_ack offsets) slot = some (process_update_ack offsets slot)

  unfoldable pub run : List Event → Slot → Option Slot
  run [] slot = some slot
  run (ev ∷ evs) slot = bind_value (step ev slot) (λ next. run evs next)
