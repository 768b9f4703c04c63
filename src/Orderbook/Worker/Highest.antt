-- ===== src/Orderbook/Worker/Highest.antt =====
-- The offsets of a flush's ack: the highest that the worker has processed of each partition.
use market_tick_aggregator.Prelude.{
  ℕ, zero, suc, ◌≡◌, refl, sym, ◌∙◌, Bool, List, [], ◌∷◌, Option, none, some, Eq, ◌==◌, nat_eq,
  or_else, Bool-cases, inl, inr, ◌||◌, length,
}
use market_tick_aggregator.Prelude.Assoc.{Assoc, lookup, bind_value}
use market_tick_aggregator.Orderbook.OrderedTree.{PriceOrder, OrderedTree, Levels}
use market_tick_aggregator.Orderbook.Worker.{
  StoredSnapshot, DispatchRecord, SymbolState, Worker, OrderbookFlush, note_max, apply_update,
  update_entry, process_book_update, new_state, restore_or_create_state, note_offsets,
  ack_offset_map, flush_symbol_state, flush_all, flush_book, buffer_key, publish, publish_best,
  best_levels_for_flush, view,
}
use market_tick_aggregator.Orderbook.Book.{PriceLevel, top_n}
use market_tick_aggregator.Orderbook.Worker.Higher.{
  higher, higher-none, higher_assoc, higher_swap, only_at, top_of, nothing_acked, lookup-note_max,
  top_of-note_max,
}

module _ {P Q : Type 0} ⦃e : Eq P⦄ ⦃o : PriceOrder P⦄ (x : OrderedTree P Q)
    (is_removal : Q → Bool) where
  -- what a state has processed, by partition
  abbrev offsets_of : SymbolState x is_removal → Assoc ℕ ℕ
  offsets_of st = or_else st.last_processed_offset []

  unfoldable pub top_states : ℕ → List (ℕ × SymbolState x is_removal) → Option ℕ
  top_states p [] = none
  top_states p ((n, st) ∷ entries) = higher (top_of p (offsets_of st)) (top_states p entries)

  none_processed : (p : ℕ) (o : Option ℕ) → higher (top_states p []) o ≡ o
  unfolding top_states
  none_processed p o = refl

  lookup-note_offsets :
      (p : ℕ) (offs acked : Assoc ℕ ℕ)
      → lookup p (note_offsets x is_removal offs acked) ≡ higher (lookup p acked) (top_of p offs)
  unfolding note_offsets top_of
  lookup-note_offsets p [] acked = sym (higher-none (lookup p acked))
  lookup-note_offsets p ((q, off) ∷ offs) acked =
      lookup-note_offsets p offs (note_max q off acked)
      ∙ rw (lookup-note_max p q off acked)
          (higher_assoc (lookup p acked) (only_at p q off) (top_of p offs))

  lookup-ack_offset_map :
      (p : ℕ) (entries : List (ℕ × SymbolState x is_removal)) (acked : Assoc ℕ ℕ)
      → lookup p (ack_offset_map x is_removal entries acked)
        ≡ higher (lookup p acked) (top_states p entries)
  unfolding ack_offset_map top_states
  lookup-ack_offset_map p [] acked = sym (higher-none (lookup p acked))
  lookup-ack_offset_map p ((n, st) ∷ entries) acked =
      lookup-ack_offset_map p entries (note_offsets x is_removal (offsets_of st) acked)
      ∙ rw (lookup-note_offsets p (offsets_of st) acked)
          (higher_assoc (lookup p acked) (top_of p (offsets_of st)) (top_states p entries))

  -- every state's map has been made
  abbrev pub HasMap : SymbolState x is_removal → Type 0
  HasMap st = (m : Assoc ℕ ℕ) × (st.last_processed_offset ≡ some m)

  abbrev pub AllHaveMap : List (ℕ × SymbolState x is_removal) → Type 0
  AllHaveMap [] = Unit {0}
  AllHaveMap ((n, st) ∷ entries) = HasMap st × AllHaveMap entries

  apply_update-HasMap :
      (rec : DispatchRecord P Q) (st : SymbolState x is_removal)
      → HasMap st
      → (st' : SymbolState x is_removal) × (apply_update x is_removal rec st ≡ some st')
        × HasMap st'
        × ((p : ℕ)
            → top_of p (offsets_of st')
              ≡ higher (top_of p (offsets_of st)) (only_at p rec.partition rec.offset))
  unfolding apply_update
  apply_update-HasMap rec st (m, has) = rw has (
    _,
    refl,
    (note_max rec.partition rec.offset m, refl),
    λ p. top_of-note_max p rec.partition rec.offset m,
  )

  update_entry-HasMap :
      (found : Option ℕ) (fresh : SymbolState x is_removal) (key : ℕ) (rec : DispatchRecord P Q)
      (entries : List (ℕ × SymbolState x is_removal))
      → HasMap fresh
      → ((p : ℕ) → top_of p (offsets_of fresh) ≡ none)
      → AllHaveMap entries
      → (entries' : List (ℕ × SymbolState x is_removal)) × (update_entry x is_removal found fresh
            key rec entries
          ≡ some entries')
        × AllHaveMap entries'
        × ((p : ℕ)
            → top_states p entries'
              ≡ higher (top_states p entries) (only_at p rec.partition rec.offset))
  unfolding update_entry top_states
  update_entry-HasMap found fresh key rec [] f none_yet h =
      let (st', applied, has, tops) = apply_update-HasMap rec fresh f in
      rw applied (
        (key, st') ∷ [],
        refl,
        (has, tt),
        λ p. higher-none (top_of p (offsets_of st')) ∙ tops p ∙ rw (none_yet p),
      )
  update_entry-HasMap none fresh key rec ((k, st) ∷ entries) f none_yet h =
      let (rest, updated, has, tops) =
        update_entry-HasMap none fresh key rec entries f none_yet h.1 in
      rw updated (
        (k, st) ∷ rest,
        refl,
        (h.0, has),
        λ p. rw (tops p) (
            sym (
              higher_assoc (top_of p (offsets_of st)) (top_states p entries)
                (only_at p rec.partition rec.offset))),
      )
  update_entry-HasMap (some zero) fresh key rec ((k, st) ∷ entries) f none_yet h =
      let (st', applied, has, tops) = apply_update-HasMap rec st h.0 in
      rw applied (
        (k, st') ∷ entries,
        refl,
        (has, h.1),
        λ p. rw (tops p) (
            higher_swap (top_of p (offsets_of st)) (only_at p rec.partition rec.offset)
              (top_states p entries)),
      )
  update_entry-HasMap (some (suc i)) fresh key rec ((k, st) ∷ entries) f none_yet h =
      let (rest, updated, has, tops) =
        update_entry-HasMap (some i) fresh key rec entries f none_yet h.1 in
      rw updated (
        (k, st) ∷ rest,
        refl,
        (h.0, has),
        λ p. rw (tops p) (
            sym (
              higher_assoc (top_of p (offsets_of st)) (top_states p entries)
                (only_at p rec.partition rec.offset))),
      )

  module _ (unmarshal : List ℕ → StoredSnapshot P Q) where
    -- The updates of a worker, each with the entry that its lookup finds; Redis holds nothing.
    unfoldable pub process_all :
        List (Option ℕ × DispatchRecord P Q) → Worker x is_removal → Option (Worker x is_removal)
    process_all [] w = some w
    process_all ((found, rec) ∷ updates) w =
        bind_value (process_book_update x is_removal unmarshal [] found rec w)
          (λ next. process_all updates next)

  -- The highest offset of a partition among the records.
  unfoldable pub highest : ℕ → List (Option ℕ × DispatchRecord P Q) → Option ℕ
  highest p [] = none
  highest p ((found, rec) ∷ updates) =
      higher (only_at p rec.partition rec.offset) (highest p updates)

  module _ (minus : P → P → P) (marshals : OrderbookFlush x is_removal → Bool)
      (flush_depth : ℕ) where
    publish_keeps :
        (key : List ℕ) (st : SymbolState x is_removal) (book : OrderbookFlush x is_removal)
        → (publish x is_removal minus marshals flush_depth key st book).0.last_processed_offset
          ≡ st.last_processed_offset
    publish_keeps key st book = elim (Bool-cases (marshals book)) [
      | inl done ↦ rw done
      | inr failed ↦ rw failed
    ]

    publish_best_keeps :
        (key : List ℕ) (st : SymbolState x is_removal) (bids asks : Levels P Q)
        (levels : Option (PriceLevel P Q × PriceLevel P Q))
        → (publish_best x is_removal minus marshals flush_depth key st bids asks
            levels).0.last_processed_offset
          ≡ st.last_processed_offset
    publish_best_keeps key st bids asks none = refl
    publish_best_keeps key st bids asks (some levels) = publish_keeps key st _

    flush_symbol_state_keeps :
        (key : List ℕ) (st : SymbolState x is_removal)
        → (flush_symbol_state x is_removal minus marshals flush_depth key
            st).0.last_processed_offset
          ≡ st.last_processed_offset
    unfolding flush_symbol_state
    flush_symbol_state_keeps key st =
        let bids = top_n x is_removal flush_depth st.orderbook.bids in
        let asks = top_n x is_removal flush_depth st.orderbook.asks in
        elim (Bool-cases ((length bids == 0) || (length asks == 0))) [
          | inl empty ↦ rw empty
          | inr both ↦
              rw both (publish_best_keeps key st bids asks (best_levels_for_flush x is_removal st))
        ]

    top_states-flush_all :
        (p : ℕ) (buf : List ℕ) (entries : List (ℕ × SymbolState x is_removal))
        → top_states p (flush_all x is_removal minus marshals flush_depth buf entries).0
          ≡ top_states p entries
    unfolding flush_all top_states
    top_states-flush_all p buf [] = refl
    top_states-flush_all p buf ((n, st) ∷ entries) =
        rw (flush_symbol_state_keeps (view n buf) st, top_states-flush_all p buf entries)

  module _ (unmarshal : List ℕ → StoredSnapshot P Q) where
    process-HasMap :
        (found : Option ℕ) (rec : DispatchRecord P Q) (w : Worker x is_removal)
        → AllHaveMap w.orderbook_state_map
        → (w' : Worker x is_removal) × (process_book_update x is_removal unmarshal [] found rec w
            ≡ some w')
          × AllHaveMap w'.orderbook_state_map
          × ((p : ℕ)
              → top_states p w'.orderbook_state_map
                ≡ higher (top_states p w.orderbook_state_map) (only_at p rec.partition rec.offset))
    unfolding process_book_update restore_or_create_state new_state lookup top_of
    process-HasMap found rec w h =
        let fresh = restore_or_create_state x is_removal unmarshal [] rec.exchange rec.symbol in
        let key = length (buffer_key rec.exchange rec.symbol) in
        let (entries, updated, has, tops) =
          update_entry-HasMap found fresh key rec w.orderbook_state_map ([], refl) (λ p. refl) h in
        rw updated (_, refl, has, tops)

    process_all-HasMap :
        (updates : List (Option ℕ × DispatchRecord P Q)) (w : Worker x is_removal)
        → AllHaveMap w.orderbook_state_map
        → (w' : Worker x is_removal) × (process_all unmarshal updates w ≡ some w')
          × ((p : ℕ)
              → top_states p w'.orderbook_state_map
                ≡ higher (top_states p w.orderbook_state_map) (highest p updates))
    unfolding process_all highest
    process_all-HasMap [] w h =
        (w, refl, λ p. sym (higher-none (top_states p w.orderbook_state_map)))
    process_all-HasMap ((found, rec) ∷ updates) w h =
        let (next, processed, has, tops) = process-HasMap found rec w h in
        let (last, ran, rest) = process_all-HasMap updates next has in
        rw processed (
          last,
          ran,
          λ p.
              rest p
              ∙ rw (tops p) (
                  higher_assoc (top_states p w.orderbook_state_map)
                    (only_at p rec.partition rec.offset) (highest p updates)),
        )

    -- After any stream of updates, of any symbols and in any order of offsets, and whichever entries the
    -- map's lookups find, a worker that started with no states and no snapshots has not panicked, and
    -- its flush acks for each partition the highest offset among the records of that partition, or
    -- nothing if there was none.
    pub flush_book-highest :
        (minus : P → P → P) (marshals : OrderbookFlush x is_removal → Bool) (flush_depth : ℕ)
        (updates : List (Option ℕ × DispatchRecord P Q)) (buf : List ℕ)
        → (w : Worker x is_removal) × (process_all unmarshal updates
              (record { buffer_key_buf = buf; orderbook_state_map = [] })
            ≡ some w)
          × ((p : ℕ)
              → lookup p (flush_book x is_removal minus marshals flush_depth w).2
                ≡ highest p updates)
    unfolding flush_book
    flush_book-highest minus marshals flush_depth updates buf =
        let start : Worker x is_removal = record {
          buffer_key_buf = buf;
          orderbook_state_map = [];
        } in
        let (w, ran, tops) = process_all-HasMap updates start tt in
        (
          w,
          ran,
          λ p.
              lookup-ack_offset_map p
                (flush_all x is_removal minus marshals flush_depth w.buffer_key_buf
                  w.orderbook_state_map).0
                []
              ∙ nothing_acked
                  (top_states p
                    (flush_all x is_removal minus marshals flush_depth w.buffer_key_buf
                      w.orderbook_state_map).0)
                  p
              ∙ top_states-flush_all minus marshals flush_depth p w.buffer_key_buf
                  w.orderbook_state_map
              ∙ tops p
              ∙ none_processed p (highest p updates),
        )
