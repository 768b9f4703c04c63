-- ===== src/Orderbook/Worker.antt =====
-- orderbook/worker/worker.go: the books of a worker's symbols, what it flushes, and how far it has
-- come. The worker's goroutine runs each function whole. Redis, the clock and protobuf are parameters.
pub mod Higher
pub mod Highest
pub mod Keys
mod Tests
use market_tick_aggregator.Prelude.{
  ℕ, zero, suc, ◌+◌, ◌-◌, ◌≡◌, Bool, true, false, List, [], ◌∷◌, ◌++◌, Option, none, some,
  if◌then◌else◌, length, ltb, leb, Eq, ◌==◌, nat_eq, list_eq, ◌&&◌, ◌||◌, not, max, or_else,
}
use market_tick_aggregator.Prelude.Int.{ℤ, pos, ltb_ℤ}
use market_tick_aggregator.Prelude.Assoc.{Assoc, lookup, insert, bind_value}
use market_tick_aggregator.Kafka.{Text, RecordHeader}
use market_tick_aggregator.IngestTs
use market_tick_aggregator.Orderbook.OrderedTree.{PriceOrder, Levels, OrderedTree}
use market_tick_aggregator.Orderbook.Book.{
  OrderBook, TreeBookSide, PriceLevel, new_order_book, upsert_all, top_n, best,
}

-- constants.DispatchRecord of a ProcessEvent; `headers` is none for a record that is nil.
pub record DispatchRecord (P Q : Type 0) : Type 0 where
  pub partition : ℕ
  pub offset : ℕ
  pub headers : Option (List RecordHeader)
  pub exchange : Text
  pub symbol : Text
  pub bids : Levels P Q
  pub asks : Levels P Q
  pub ts_ms : ℕ

-- generated.OrderBookSnapshot, after Unmarshal: a map without entries is nil.
pub record StoredSnapshot (P Q : Type 0) : Type 0 where
  pub partition_offsets : Option (Assoc ℕ ℕ)
  pub snapshot_ts_ms : ℕ
  pub stored_bids : Levels P Q
  pub stored_asks : Levels P Q

-- LastCommittedOffset: the very map that LastProcessedOffset is, or one of its own.
pub data CommittedMap : Type 0 where
  same_map : CommittedMap
  own_map : Assoc ℕ ℕ → CommittedMap

-- a missing key reads as 0
abbrev pub offset_at : ℕ → Assoc ℕ ℕ → ℕ
offset_at p m = or_else (lookup p m) 0

-- m[p] = max(m[p], off)
unfoldable pub note_max : ℕ → ℕ → Assoc ℕ ℕ → Assoc ℕ ℕ
note_max p off m = insert p (max (offset_at p m) off) m

-- appendLowerASCII
unfoldable pub append_lower_ascii : Text → Text → Text
append_lower_ascii dst [] = dst
append_lower_ascii dst (c ∷ src) =
    append_lower_ascii (dst ++ (if leb 65 c && leb c 90 then c + 32 else c) ∷ []) src

-- `bufferKeyBuf[:0]` with the key of a symbol: 58 is the colon.
unfoldable pub buffer_key : Text → Text → Text
buffer_key exchange symbol = append_lower_ascii (append_lower_ascii [] exchange ++ 58 ∷ []) symbol

-- The key that RestoreOrCreateState reads.
abbrev pub redis_key : Text → Text → Text
redis_key exchange symbol = exchange ++ 58 ∷ symbol

abbrev pub after_key : List ℕ → Text → List ℕ
after_key [] buf = buf
after_key (b ∷ key) [] = []
after_key (b ∷ key) (c ∷ buf) = after_key key buf

-- The key is written over the start of the buffer, which is never outgrown: it has room for 128 bytes.
unfoldable pub write_key : Text → Text → Text
write_key key buf = key ++ after_key key buf

-- `unsafe.String` of the buffer: what a string of `n` bytes at its start reads as.
unfoldable pub view : ℕ → Text → Text
view zero buf = []
view (suc n) [] = []
view (suc n) (b ∷ buf) = b ∷ view n buf

module _ {P Q : Type 0} ⦃e : Eq P⦄ ⦃o : PriceOrder P⦄ (x : OrderedTree P Q)
    (is_removal : Q → Bool) where
  pub record SymbolState : Type 0 where
    pub exchange : Text
    pub symbol : Text
    pub timestamp_millis : ℕ
    pub newest_ingest_ms : ℤ
    pub orderbook : OrderBook x is_removal
    pub last_committed_offset : CommittedMap
    pub last_processed_offset : Option (Assoc ℕ ℕ)
    pub restored : Bool
    pub snapshot_pending : Bool

  -- The map's keys are strings in the key buffer, of which only the length is the entry's own.
  pub record Worker : Type 0 where
    pub buffer_key_buf : Text
    pub orderbook_state_map : List (ℕ × SymbolState)

  unfoldable pub new_state : Text → Text → SymbolState
  new_state exchange symbol = record {
    exchange = exchange;
    symbol = symbol;
    timestamp_millis = 0;
    newest_ingest_ms = pos 0;
    orderbook = new_order_book x is_removal;
    last_committed_offset = own_map [];
    last_processed_offset = some [];
    restored = false;
    snapshot_pending = false;
  }

  unfoldable pub restored_state : StoredSnapshot P Q → Text → Text → SymbolState
  restored_state stored exchange symbol =
      let book = new_order_book x is_removal in
      record {
        exchange = exchange;
        symbol = symbol;
        timestamp_millis = stored.snapshot_ts_ms;
        newest_ingest_ms = pos 0;
        orderbook = record {
          bids = upsert_all x is_removal stored.stored_bids book.bids;
          asks = upsert_all x is_removal stored.stored_asks book.asks;
        };
        last_committed_offset = same_map;
        last_processed_offset = stored.partition_offsets;
        restored = true;
        snapshot_pending = false;
      }

  abbrev pub state_from : (List ℕ → StoredSnapshot P Q) → List ℕ → Text → Text → SymbolState
  state_from unmarshal [] exchange symbol = new_state exchange symbol
  state_from unmarshal (b ∷ bytes) exchange symbol =
      restored_state (unmarshal (b ∷ bytes)) exchange symbol

  -- `redis` is what it holds by key; a key that is missing, or an error, gives no bytes.
  unfoldable pub restore_or_create_state :
      (List ℕ → StoredSnapshot P Q) → Assoc Text (List ℕ) → Text → Text → SymbolState
  restore_or_create_state unmarshal redis exchange symbol =
      state_from unmarshal (or_else (lookup (redis_key exchange symbol) redis) []) exchange symbol

  abbrev newer_ingest : Option ℤ → ℤ → ℤ
  newer_ingest none newest = newest
  newer_ingest (some ms) newest = if ltb_ℤ newest ms then ms else newest

  abbrev found_ingest : Option (List RecordHeader) → Option ℤ
  found_ingest none = none
  found_ingest (some headers) = IngestTs.find headers

  -- From the book's levels to the offset. A write to a nil map panics: none.
  unfoldable pub apply_update : DispatchRecord P Q → SymbolState → Option SymbolState
  unfolding IngestTs.find
  apply_update rec st = elim st.last_processed_offset [
    | none ↦ none
    | some processed ↦ some (record st {
      orderbook = record {
        bids = upsert_all x is_removal rec.bids st.orderbook.bids;
        asks = upsert_all x is_removal rec.asks st.orderbook.asks;
      };
      timestamp_millis = rec.ts_ms;
      newest_ingest_ms = newer_ingest (found_ingest rec.headers) st.newest_ingest_ms;
      last_processed_offset = some (note_max rec.partition rec.offset processed);
    })
  ]

  abbrev pub with_state :
      ℕ → Option SymbolState → List (ℕ × SymbolState) → Option (List (ℕ × SymbolState))
  with_state key none rest = none
  with_state key (some st) rest = some ((key, st) ∷ rest)

  abbrev pub behind :
      ℕ × SymbolState → Option (List (ℕ × SymbolState)) → Option (List (ℕ × SymbolState))
  behind entry none = none
  behind entry (some rest) = some (entry ∷ rest)

  -- The entry that the lookup found, or a new one.
  unfoldable pub update_entry :
      Option ℕ
      → SymbolState
      → ℕ
      → DispatchRecord P Q
      → List (ℕ × SymbolState)
      → Option (List (ℕ × SymbolState))
  update_entry found fresh key rec [] = with_state key (apply_update rec fresh) []
  update_entry none fresh key rec (entry ∷ entries) =
      behind entry (update_entry none fresh key rec entries)
  update_entry (some zero) fresh key rec ((k, st) ∷ entries) =
      with_state k (apply_update rec st) entries
  update_entry (some (suc i)) fresh key rec (entry ∷ entries) =
      behind entry (update_entry (some i) fresh key rec entries)

  -- `found` is the entry that the runtime's map lookup finds: what it does with keys that have changed
  -- since they were stored is not documented.
  unfoldable pub process_book_update :
      (List ℕ → StoredSnapshot P Q)
      → Assoc Text (List ℕ)
      → Option ℕ
      → DispatchRecord P Q
      → Worker
      → Option Worker
  process_book_update unmarshal redis found rec w =
      let key = buffer_key rec.exchange rec.symbol in
      let fresh = restore_or_create_state unmarshal redis rec.exchange rec.symbol in
      bind_value (update_entry found fresh (length key) rec w.orderbook_state_map) (λ entries.
        some (record {
          buffer_key_buf = write_key key w.buffer_key_buf;
          orderbook_state_map = entries;
        }))

  -- generated.OrderbookFlush
  pub record OrderbookFlush : Type 0 where
    pub flush_exchange : Text
    pub flush_symbol : Text
    pub event_time_millis : ℕ
    pub flush_bids : Levels P Q
    pub flush_asks : Levels P Q
    pub best_bid : PriceLevel P Q
    pub best_ask : PriceLevel P Q
    pub spread : P

  unfoldable pub best_levels_for_flush : SymbolState → Option (PriceLevel P Q × PriceLevel P Q)
  best_levels_for_flush st = elim (best x is_removal st.orderbook.bids) [
    | none ↦ none
    | some bid ↦ elim (best x is_removal st.orderbook.asks) [
      | none ↦ none
      | some ask ↦ some (bid, ask)
    ]
  ]

  -- What is published: its key, the book, and the ingest time.
  abbrev pub Published : Type 0
  Published = Text × OrderbookFlush × ℤ

  module _ (minus : P → P → P) (marshals : OrderbookFlush → Bool) (flush_depth : ℕ) where
    unfoldable pub flushed_book :
        SymbolState → Levels P Q → Levels P Q → PriceLevel P Q × PriceLevel P Q → OrderbookFlush
    flushed_book st bids asks levels = record {
      flush_exchange = st.exchange;
      flush_symbol = st.symbol;
      event_time_millis = st.timestamp_millis;
      flush_bids = bids;
      flush_asks = asks;
      best_bid = levels.0;
      best_ask = levels.1;
      spread = minus levels.1.0 levels.0.0;
    }

    abbrev pub publish : Text → SymbolState → OrderbookFlush → SymbolState × List Published
    publish key st book =
        if marshals book
        then (record st { newest_ingest_ms = pos 0 }, (key, book, st.newest_ingest_ms) ∷ [])
        else (st, [])

    abbrev pub publish_best :
        Text
        → SymbolState
        → Levels P Q
        → Levels P Q
        → Option (PriceLevel P Q × PriceLevel P Q)
        → SymbolState × List Published
    publish_best key st bids asks none = (st, [])
    publish_best key st bids asks (some levels) = publish key st (flushed_book st bids asks levels)

    -- One pass of the loop: a side without levels is skipped.
    unfoldable pub flush_symbol_state : Text → SymbolState → SymbolState × List Published
    flush_symbol_state key st =
        let bids = top_n x is_removal flush_depth st.orderbook.bids in
        let asks = top_n x is_removal flush_depth st.orderbook.asks in
        if (length bids == 0) || (length asks == 0)
        then (st, [])
        else publish_best key st bids asks (best_levels_for_flush st)

    unfoldable pub flush_all :
        Text → List (ℕ × SymbolState) → List (ℕ × SymbolState) × List Published
    flush_all buf [] = ([], [])
    flush_all buf ((n, st) ∷ entries) =
        let (st', published) = flush_symbol_state (view n buf) st in
        let (entries', rest) = flush_all buf entries in ((n, st') ∷ entries', published ++ rest)

  -- ackOffsetMap[partition] = max(ackOffsetMap[partition], offset)
  unfoldable pub note_offsets : Assoc ℕ ℕ → Assoc ℕ ℕ → Assoc ℕ ℕ
  note_offsets [] acked = acked
  note_offsets ((p, off) ∷ offs) acked = note_offsets offs (note_max p off acked)

  unfoldable pub ack_offset_map : List (ℕ × SymbolState) → Assoc ℕ ℕ → Assoc ℕ ℕ
  ack_offset_map [] acked = acked
  ack_offset_map ((n, st) ∷ entries) acked =
      ack_offset_map entries (note_offsets (or_else st.last_processed_offset []) acked)

  -- The worker, what it published, and the offsets of its ack.
  unfoldable pub flush_book :
      (P → P → P) → (OrderbookFlush → Bool) → ℕ → Worker → Worker × List Published × Assoc ℕ ℕ
  flush_book minus marshals flush_depth w =
      let (entries, published) =
        flush_all minus marshals flush_depth w.buffer_key_buf w.orderbook_state_map in
      (record w { orderbook_state_map = entries }, published, ack_offset_map entries [])
