-- ===== src/Orderbook/Snapshot/Stuck.antt =====
-- A snapshot that was taken of an empty book is never written, and none is taken after it.
use market_tick_aggregator.Prelude.{
  ℕ, ◌≡◌, refl, sym, ◌∙◌, Bool, true, false, List, [], ◌∷◌, ◌++◌, Option, some, Eq, nat_eq, ◌&&◌,
  subst, All, All-append, Bool-cases, inl, inr, ap, ◌==◌, list_eq, beq_refl,
}
use market_tick_aggregator.Prelude.Assoc.{Assoc}
use market_tick_aggregator.Kafka.{Text}
use market_tick_aggregator.Orderbook.OrderedTree.{PriceOrder, OrderedTree}
use market_tick_aggregator.Orderbook.Book.{top_n}
use market_tick_aggregator.Orderbook.Worker.{
  SymbolState, DispatchRecord, apply_update, note_max, buffer_key,
}
use market_tick_aggregator.Orderbook.Snapshot.{
  OrderBookSnapshot, Slot, Event, book_update, snapshot_request, snapshot_execute, persist_round,
  snapshot_persisted, update_ack, step, run, is_empty_snapshot, clone_light_weight,
  handle_snapshot_request, can_snapshot, committed_of, evaluate_and_dispatch_snapshot,
  snapshot_persist_loop, handle_snapshot_persisted, process_update_ack, dispatched, persisted,
  handled, requested,
}

module _ {P Q : Type 0} ⦃e : Eq P⦄ ⦃o : PriceOrder P⦄ (x : OrderedTree P Q) (is_removal : Q → Bool)
    (flush_depth : ℕ) (key : Text) where
  pub record Stuck (snap : OrderBookSnapshot P Q) (slot : Slot x is_removal flush_depth key)
      : Type 0 where
    pub pending : slot.state.snapshot_pending ≡ true
    pub held : slot.snapshot ≡ some snap
    pub no_levels : is_empty_snapshot snap ≡ true
    pub waiting : All (λ (s : OrderBookSnapshot P Q). is_empty_snapshot s ≡ true) slot.channel
    pub no_events : slot.persisted_events ≡ 0
    pub has_map : (m : Assoc ℕ ℕ) × (slot.state.last_processed_offset ≡ some m)

  -- The slot after an event: still stuck, and nothing was written.
  abbrev StaysStuck :
      OrderBookSnapshot P Q
      → Slot x is_removal flush_depth key
      → Option (Slot x is_removal flush_depth key)
      → Type 0
  StaysStuck snap slot result =
      (slot' : Slot x is_removal flush_depth key) × (result ≡ some slot')
      × Stuck snap slot'
      × (slot'.saved ≡ slot.saved)

  abbrev Empty : OrderBookSnapshot P Q → Type 0
  Empty s = is_empty_snapshot s ≡ true

  apply_update_keeps :
      (rec : DispatchRecord P Q) (st : SymbolState x is_removal) (m : Assoc ℕ ℕ)
      → st.last_processed_offset ≡ some m
      → (st' : SymbolState x is_removal) × (apply_update x is_removal rec st ≡ some st')
        × (st'.snapshot_pending ≡ st.snapshot_pending)
        × ((m' : Assoc ℕ ℕ) × (st'.last_processed_offset ≡ some m'))
  unfolding apply_update
  apply_update_keeps rec st m has =
      rw has (_, refl, refl, (note_max rec.partition rec.offset m, refl))

  update-Stuck :
      (snap : OrderBookSnapshot P Q) (rec : DispatchRecord P Q)
      (slot : Slot x is_removal flush_depth key)
      → buffer_key rec.exchange rec.symbol ≡ key
      → Stuck snap slot
      → StaysStuck snap slot (step x is_removal flush_depth key (book_update rec) slot)
  unfolding step
  update-Stuck snap rec slot own h =
      let here : (buffer_key rec.exchange rec.symbol == key) ≡ true =
        ap (λ (k : Text). k == key) own ∙ beq_refl key in
      let (m, has) = h.has_map in
      let (st', applied, pending, map) = apply_update_keeps rec slot.state m has in
      rw (here, applied)
        (
          record slot { state = st' },
          refl,
          record {
            pending = pending ∙ h.pending;
            held = h.held;
            no_levels = h.no_levels;
            waiting = h.waiting;
            no_events = h.no_events;
            has_map = map;
          },
          refl,
        )

  request-Stuck :
      (snap : OrderBookSnapshot P Q) (now : ℕ) (slot : Slot x is_removal flush_depth key)
      → Stuck snap slot
      → StaysStuck snap slot (step x is_removal flush_depth key (snapshot_request now) slot)
  unfolding step handle_snapshot_request
  request-Stuck snap now slot h =
      subst
        (λ (b : Bool).
          StaysStuck snap slot (some (requested x is_removal flush_depth key b now slot)))
        (sym h.pending) (slot, refl, h, refl)

  dispatched-Stuck :
      (snap s : OrderBookSnapshot P Q) (room : Bool) (slot : Slot x is_removal flush_depth key)
      → Empty s
      → Stuck snap slot
      → StaysStuck snap slot (some (dispatched x is_removal flush_depth key room (some s) slot))
  dispatched-Stuck snap s room slot empty h =
      elim (Bool-cases (
        slot.state.snapshot_pending
        && (can_snapshot s.partition_offsets (committed_of x is_removal flush_depth key slot.state)
            && room))) [
              | inl goes ↦ rw goes (
                record slot { channel = slot.channel ++ s ∷ [] },
                refl,
                record {
                  pending = h.pending;
                  held = h.held;
                  no_levels = h.no_levels;
                  waiting = All-append Empty slot.channel (s ∷ []) h.waiting (empty, tt);
                  no_events = h.no_events;
                  has_map = h.has_map;
                },
                refl,
              )
              | inr stays ↦ rw stays (slot, refl, h, refl)
            ]

  execute-Stuck :
      (snap : OrderBookSnapshot P Q) (room : Bool) (slot : Slot x is_removal flush_depth key)
      → Stuck snap slot
      → StaysStuck snap slot (step x is_removal flush_depth key (snapshot_execute room) slot)
  unfolding step evaluate_and_dispatch_snapshot
  execute-Stuck snap room slot h =
      subst
        (λ (s : Option (OrderBookSnapshot P Q)).
          StaysStuck snap slot (some (dispatched x is_removal flush_depth key room s slot)))
        (sym h.held) (dispatched-Stuck snap snap room slot h.no_levels h)

  persist-Stuck :
      (snap : OrderBookSnapshot P Q) (stores room : Bool) (slot : Slot x is_removal flush_depth key)
      (channel : List (OrderBookSnapshot P Q))
      → All Empty channel
      → Stuck snap slot
      → StaysStuck snap slot
          (some (persisted x is_removal flush_depth key stores room channel slot))
  persist-Stuck snap stores room slot [] waiting h = (slot, refl, h, refl)
  persist-Stuck snap stores room slot (s ∷ rest) waiting h = rw waiting.0 (
    record slot { channel = rest },
    refl,
    record {
      pending = h.pending;
      held = h.held;
      no_levels = h.no_levels;
      waiting = waiting.1;
      no_events = h.no_events;
      has_map = h.has_map;
    },
    refl,
  )

  persisted-Stuck :
      (snap : OrderBookSnapshot P Q) (slot : Slot x is_removal flush_depth key)
      → Stuck snap slot
      → StaysStuck snap slot (step x is_removal flush_depth key snapshot_persisted slot)
  unfolding step handle_snapshot_persisted
  persisted-Stuck snap slot h =
      subst (λ (n : ℕ). StaysStuck snap slot (some (handled x is_removal flush_depth key n slot)))
        (sym h.no_events) (slot, refl, h, refl)

  ack-Stuck :
      (snap : OrderBookSnapshot P Q) (offsets : Assoc ℕ ℕ)
      (slot : Slot x is_removal flush_depth key)
      → Stuck snap slot
      → StaysStuck snap slot (step x is_removal flush_depth key (update_ack offsets) slot)
  unfolding step process_update_ack
  ack-Stuck snap offsets slot h = (
    _,
    refl,
    record {
      pending = h.pending;
      held = h.held;
      no_levels = h.no_levels;
      waiting = h.waiting;
      no_events = h.no_events;
      has_map = h.has_map;
    },
    refl,
  )

  -- A record is one of the symbol.
  abbrev pub Own : Event x is_removal flush_depth key → Type 0
  Own (book_update rec) = buffer_key rec.exchange rec.symbol ≡ key
  Own ev = Unit {0}

  step-Stuck :
      (snap : OrderBookSnapshot P Q) (ev : Event x is_removal flush_depth key)
      (slot : Slot x is_removal flush_depth key)
      → Own ev
      → Stuck snap slot
      → StaysStuck snap slot (step x is_removal flush_depth key ev slot)
  unfolding step snapshot_persist_loop
  step-Stuck snap (book_update rec) slot own h = update-Stuck snap rec slot own h
  step-Stuck snap (snapshot_request now) slot own h = request-Stuck snap now slot h
  step-Stuck snap (snapshot_execute room) slot own h = execute-Stuck snap room slot h
  step-Stuck snap (persist_round stores room) slot own h =
      persist-Stuck snap stores room slot slot.channel h.waiting h
  step-Stuck snap snapshot_persisted slot own h = persisted-Stuck snap slot h
  step-Stuck snap (update_ack offsets) slot own h = ack-Stuck snap offsets slot h

  run-Stuck :
      (snap : OrderBookSnapshot P Q) (evs : List (Event x is_removal flush_depth key))
      (slot : Slot x is_removal flush_depth key)
      → All Own evs
      → Stuck snap slot
      → StaysStuck snap slot (run x is_removal flush_depth key evs slot)
  unfolding run
  run-Stuck snap [] slot own h = (slot, refl, h, refl)
  run-Stuck snap (ev ∷ evs) slot own h =
      let (slot', stepped, h', saved) = step-Stuck snap ev slot own.0 h in
      let (last, ran, h'', saved') = run-Stuck snap evs slot' own.1 h' in
      rw stepped (last, ran, h'', saved' ∙ saved)

  -- In a worker whose records are all of one symbol: if a snapshot is requested while the symbol's book
  -- has no level on either side, and no snapshot of it is under way, then whatever happens afterwards
  -- (updates that fill the book, requests, acks, rounds of the persist loop, in any order) the request
  -- stays pending, the empty snapshot stays the symbol's snapshot, and nothing is ever written to Redis.
  pub requested_empty-Stuck :
      (slot : Slot x is_removal flush_depth key) (m : Assoc ℕ ℕ) (now : ℕ)
      (evs : List (Event x is_removal flush_depth key))
      → All Own evs
      → slot.state.snapshot_pending ≡ false
      → slot.state.last_processed_offset ≡ some m
      → slot.channel ≡ []
      → slot.persisted_events ≡ 0
      → top_n x is_removal flush_depth slot.state.orderbook.bids ≡ []
      → top_n x is_removal flush_depth slot.state.orderbook.asks ≡ []
      → (slot' : Slot x is_removal flush_depth key) × (run x is_removal flush_depth key
            (snapshot_request now ∷ evs)
            slot
          ≡ some slot')
        × (slot'.state.snapshot_pending ≡ true)
        × (slot'.snapshot ≡ some (clone_light_weight x is_removal flush_depth key now slot.state))
        × (slot'.saved ≡ slot.saved)
  unfolding step handle_snapshot_request run
  requested_empty-Stuck slot m now evs own idle has none_sent no_events no_bids no_asks =
      let snap = clone_light_weight x is_removal flush_depth key now slot.state in
      let start = record slot {
        snapshot = some snap;
        state = record slot.state { snapshot_pending = true };
      } in
      let empty : Empty snap = unfold clone_light_weight in rw (no_bids, no_asks) in
      let (slot', ran, h, saved) = run-Stuck snap evs start own (record {
        pending = refl;
        held = refl;
        no_levels = empty;
        waiting = rw none_sent tt;
        no_events = no_events;
        has_map = (m, has);
      }) in
      subst
        (λ (b : Bool).
          (slot' : Slot x is_removal flush_depth key) × (run x is_removal flush_depth key evs
              (requested x is_removal flush_depth key b now slot)
            ≡ some slot')
          × (slot'.state.snapshot_pending ≡ true)
          × (slot'.snapshot ≡ some snap)
          × (slot'.saved ≡ slot.saved))
        (sym idle) (slot', ran, h.pending, h.held, saved)
