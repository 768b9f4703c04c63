-- ===== src/Normalizer/Worker/Snapshot.antt =====
-- The REST snapshot of a Binance depth stream spliced into the buffered updates.
use market_tick_aggregator.Prelude.{
  ℕ, suc, ◌+◌, ◌<◌, ◌≤◌, ◌≡◌, refl, sym, ap, ◌∙◌, Bool, true, false, not, List, [], ◌∷◌, ◌++◌, map,
  Option, some, if◌then◌else◌, arith, Bool-cases, inl, inr, subst, leb, nat_eq, is_some, Among,
  here, there,
}
use mathlib.Core.List.{append-nil}
use market_tick_aggregator.Prelude.Int.{pos}
use market_tick_aggregator.Prelude.Assoc.{lookup}
use market_tick_aggregator.Prelude.Sort.{sort, sort-contains, StrictFrom}
use market_tick_aggregator.Normalizer.State.{
  RawMessage, binance_depth_update, other_message, PipelineMessage, SymbolState,
}
use market_tick_aggregator.Normalizer.Orderer.Sequence.{
  sequence_orderer_cleanup, sequence_sort_buffer_flush, pick,
}
use market_tick_aggregator.Normalizer.Orderer.Sequence.Buffer.{
  SeqBuffer, empty-SeqBuffer, flush-StrictFrom, pick-Among, Among-pick,
}
use market_tick_aggregator.Normalizer.Orderer.Strategy.{binance_depth_orderer}
use market_tick_aggregator.Normalizer.Worker.{
  Output, rest_snapshot, Handled, DepthSnapshot, survives, survivors, is_stale_snapshot, splice,
  process_snapshot_ready, handled, clean, all_priced, build_snapshot_proto,
}
use market_tick_aggregator.Normalizer.Worker.Flush.{published, process_buffer-Cleaned}

module _ (normalize : PipelineMessage → Bool) where
  abbrev published_snapshot : Bool → ℕ → List Output
  published_snapshot marshalled last = if marshalled then rest_snapshot last ∷ [] else []

  abbrev Spliced : Bool → ℕ → List PipelineMessage → SymbolState → Type 0
  Spliced marshalled last kept s =
      (h : Handled) × (splice normalize binance_depth_orderer marshalled last kept s ≡ some h)
      × (h.outputs ≡ published_snapshot marshalled last ++ published normalize kept)
      × (h.refetch ≡ false)
      × (h.state.needs_snapshot ≡ false)
      × (h.state.snapshot_pending ≡ s.snapshot_pending)
      × SeqBuffer h.state

  splice-Spliced :
      (marshalled : Bool) (last : ℕ) (kept : List PipelineMessage) (s : SymbolState)
      → Spliced marshalled last kept s
  unfolding splice binance_depth_orderer sequence_orderer_cleanup published
  splice-Spliced marshalled last [] s = (
    record {
      state =
          sequence_orderer_cleanup (record s { needs_snapshot = false; last_seq_id = pos last });
      outputs = published_snapshot marshalled last;
      refetch = false;
    },
    refl,
    sym (append-nil (published_snapshot marshalled last)),
    refl,
    refl,
    refl,
    empty-SeqBuffer _ refl refl,
  )
  splice-Spliced marshalled last (m ∷ ms) s =
      let start : SymbolState = record s { needs_snapshot = false; last_seq_id = pos last } in
      let (t, e, c) =
        process_buffer-Cleaned normalize (m ∷ ms) start (published_snapshot marshalled last) in
      (
        record {
          state = sequence_orderer_cleanup t;
          outputs = published_snapshot marshalled last ++ published normalize (m ∷ ms);
          refetch = false;
        },
        ap
            (λ (o : Option (SymbolState × List Output)).
              handled normalize binance_depth_orderer (clean normalize binance_depth_orderer o))
            e,
        refl,
        refl,
        c.same_needs,
        c.same_pending,
        empty-SeqBuffer _ refl refl,
      )

-- The lowest id that an update covers.
abbrev pub first_update_of : RawMessage → ℕ
first_update_of (binance_depth_update first final) = first
first_update_of other_message = 0

-- Nothing is missing between the snapshot and the first of the updates.
abbrev pub reaches : ℕ → List PipelineMessage → Bool
reaches last [] = true
reaches last (m ∷ ms) = leb (first_update_of m.raw_message) (last + 1)

-- Its updates end beyond the snapshot.
abbrev pub EndsBeyond : ℕ → RawMessage → Type 0
EndsBeyond last raw =
    (first : ℕ) × (final : ℕ) × (raw ≡ binance_depth_update first final) × (last < final)

-- The list is that of the parked updates that end beyond the snapshot, in ascending order.
pub record Beyond (last : ℕ) (s : SymbolState) (kept : List PipelineMessage) : Type 0 where
  pub ascending : StrictFrom 0 (map (λ (m : PipelineMessage). m.seq_id) kept)
  pub only :
      (m : PipelineMessage)
      → Among m kept
      → (lookup m.seq_id s.buffer_seq_map ≡ some m) × EndsBeyond last m.raw_message
  pub every :
      (id : ℕ) (m : PipelineMessage)
      → lookup id s.buffer_seq_map ≡ some m
      → EndsBeyond last m.raw_message
      → Among m kept

survives-EndsBeyond : (last : ℕ) (raw : RawMessage) → survives last raw ≡ true → EndsBeyond last raw
survives-EndsBeyond last (binance_depth_update first final) h = (first, final, refl, ground arith)
survives-EndsBeyond last other_message h = cc h

EndsBeyond-survives : (last : ℕ) (raw : RawMessage) → EndsBeyond last raw → survives last raw ≡ true
EndsBeyond-survives last raw (first, final, same, beyond) = rw same (ground arith)

Among-survivors :
    (last : ℕ) (m : PipelineMessage) (ms : List PipelineMessage)
    → Among m (survivors last ms)
    → Among m ms × EndsBeyond last m.raw_message
unfolding survivors
Among-survivors last m [] a = elim a [ ]
Among-survivors last m (y ∷ ms) a = elim (Bool-cases (survives last y.raw_message)) [
  | inl alive ↦ elim (rw alive at a) [
    | here same ↦ (
      here same,
      subst (λ (z : PipelineMessage). EndsBeyond last z.raw_message) (sym same)
          (survives-EndsBeyond last y.raw_message alive),
    )
    | there rest ↦ let (among, beyond) = Among-survivors last m ms rest in (there among, beyond)
  ]
  | inr gone ↦
      let (among, beyond) = Among-survivors last m ms (rw gone at a) in (there among, beyond)
]

survivors-Among :
    (last : ℕ) (m : PipelineMessage) (ms : List PipelineMessage)
    → Among m ms
    → survives last m.raw_message ≡ true
    → Among m (survivors last ms)
unfolding survivors
survivors-Among last m [] a h = elim a [ ]
survivors-Among last m (y ∷ ms) (here same) h =
    let h' : survives last y.raw_message ≡ true =
      ap (λ (z : PipelineMessage). survives last z.raw_message) (sym same) ∙ h in
    rw h' (here same)
survivors-Among last m (y ∷ ms) (there a) h = elim (Bool-cases (survives last y.raw_message)) [
  | inl alive ↦ rw alive (there (survivors-Among last m ms a h))
  | inr gone ↦ rw gone (survivors-Among last m ms a h)
]

StrictFrom-lower :
    (low high : ℕ) (xs : List ℕ) → low ≤ high → StrictFrom high xs → StrictFrom low xs
StrictFrom-lower low high [] h v = tt
StrictFrom-lower low high (x ∷ xs) h v = (omega (arith, h, v.0), v.1)

survivors-StrictFrom :
    (last low : ℕ) (ms : List PipelineMessage)
    → StrictFrom low (map (λ (m : PipelineMessage). m.seq_id) ms)
    → StrictFrom low (map (λ (m : PipelineMessage). m.seq_id) (survivors last ms))
unfolding survivors
survivors-StrictFrom last low [] v = tt
survivors-StrictFrom last low (m ∷ ms) v =
    let rest = survivors-StrictFrom last (suc m.seq_id) ms v.1 in
    elim (Bool-cases (survives last m.raw_message)) [
      | inl alive ↦ rw alive (v.0, rest)
      | inr gone ↦ rw gone (StrictFrom-lower low (suc m.seq_id) _ (omega (arith, v.0)) rest)
    ]

kept-Beyond :
    (last : ℕ) (s : SymbolState)
    → SeqBuffer s
    → Beyond last s (survivors last (sequence_sort_buffer_flush s).0)
unfolding sequence_sort_buffer_flush
kept-Beyond last s b =
    let ids = sort s.buffer_seq_id in
    let ms = pick s.buffer_seq_map ids in
    record {
      ascending = survivors-StrictFrom last 0 ms (flush-StrictFrom s b).0;
      only = λ m a.
          let (among, beyond) = Among-survivors last m ms a in
          let (id, found) = Among-pick s.buffer_seq_map m ids among in
          (ap (λ (j : ℕ). lookup j s.buffer_seq_map) (b.own id m found) ∙ found, beyond);
      every = λ id m found beyond.
          survivors-Among last m ms
            (pick-Among s.buffer_seq_map id m ids found (
              sort-contains id s.buffer_seq_id
              ∙ b.agree id
              ∙ ap (λ (o : Option PipelineMessage). is_some o) found))
            (EndsBeyond-survives last m.raw_message beyond);
    }

-- Whether the snapshot is taken for stale, for updates that end beyond it.
stale-reaches :
    (last : ℕ) (kept : List PipelineMessage)
    → ((m : PipelineMessage) → Among m kept → EndsBeyond last m.raw_message)
    → is_stale_snapshot last kept ≡ some (not (reaches last kept))
unfolding is_stale_snapshot
stale-reaches last [] h = refl
stale-reaches last (m ∷ ms) h =
    let (first, final, same, beyond) = h m (here refl) in rw same (ap some (ground arith))

-- The same messages are parked, for the same reasons.
pub record SameParked (s t : SymbolState) : Type 0 where
  pub same_map : t.buffer_seq_map ≡ s.buffer_seq_map
  pub same_ids : t.buffer_seq_id ≡ (sequence_sort_buffer_flush s).1.buffer_seq_id
  pub same_needs : t.needs_snapshot ≡ s.needs_snapshot
  pub same_gap : t.gap_active ≡ s.gap_active

module _ (normalize : PipelineMessage → Bool) (encodes : Bool) (s : SymbolState) where
  -- What is left, if the snapshot reaches the parked updates and if it does not.
  abbrev pub Decided : Bool → ℕ → List PipelineMessage → Handled → Type 0
  Decided true last kept h =
      (h.outputs ≡ (if encodes then rest_snapshot last ∷ [] else []) ++ published normalize kept)
      × (h.refetch ≡ false)
      × (h.state.needs_snapshot ≡ false)
      × (h.state.snapshot_pending ≡ false)
      × SeqBuffer h.state
  Decided false last kept h =
      (h.outputs ≡ [])
      × (h.refetch ≡ true)
      × (h.state.snapshot_pending ≡ true)
      × SameParked s h.state

  reached-Decided :
      (snapshot : DepthSnapshot)
      → all_priced snapshot.bids ≡ true
      → all_priced snapshot.asks ≡ true
      → let kept = survivors snapshot.last_update_id (sequence_sort_buffer_flush s).0 in
        is_stale_snapshot snapshot.last_update_id kept ≡ some false
        → (h : Handled) × (process_snapshot_ready normalize binance_depth_orderer encodes
              (some snapshot)
              s
            ≡ some h)
          × Decided true snapshot.last_update_id kept h
  unfolding process_snapshot_ready binance_depth_orderer sequence_sort_buffer_flush
      build_snapshot_proto
  reached-Decided snapshot bids asks fresh =
      let last = snapshot.last_update_id in
      let (h, e, outputs, refetch, needs, pending, buffer) =
        splice-Spliced normalize encodes last (survivors last (sequence_sort_buffer_flush s).0)
          (sequence_sort_buffer_flush (record s { snapshot_pending = false })).1 in
      (
        h,
        rw (fresh, bids, asks, process_snapshot_ready) e,
        (outputs, refetch, needs, pending, buffer),
      )

  stale-Decided :
      (snapshot : DepthSnapshot)
      → let kept = survivors snapshot.last_update_id (sequence_sort_buffer_flush s).0 in
        is_stale_snapshot snapshot.last_update_id kept ≡ some true
        → (h : Handled) × (process_snapshot_ready normalize binance_depth_orderer encodes
              (some snapshot)
              s
            ≡ some h)
          × Decided false snapshot.last_update_id kept h
  unfolding process_snapshot_ready binance_depth_orderer sequence_sort_buffer_flush
  stale-Decided snapshot stale = (
    record {
      state = record (sequence_sort_buffer_flush s).1 { snapshot_pending = true };
      outputs = [];
      refetch = true;
    },
    rw (stale, process_snapshot_ready),
    (
      refl,
      refl,
      refl,
      record { same_map = refl; same_ids = refl; same_needs = refl; same_gap = refl },
    ),
  )

  -- A snapshot whose levels have a price and a volume comes while the buffer is consistent. The parked
  -- updates that end beyond it, in ascending order, decide. If there are none, or the first of them
  -- begins at most one above the snapshot, then the snapshot is published (if its protobuf can be
  -- encoded), after it in that order those updates that the normalizer accepts, the symbol waits no
  -- longer, and the buffer is left consistent. Otherwise nothing is published, every parked update
  -- stays, `needs_snapshot` stays as it was, and one new fetch is started. Neither panics, if the
  -- normalizer returns.
  pub snapshot_ready-Decided :
      (snapshot : DepthSnapshot)
      → SeqBuffer s
      → all_priced snapshot.bids ≡ true
      → all_priced snapshot.asks ≡ true
      → (kept : List PipelineMessage) × Beyond snapshot.last_update_id s kept
        × ((h : Handled) × (process_snapshot_ready normalize binance_depth_orderer encodes
                (some snapshot)
                s
              ≡ some h)
            × Decided (reaches snapshot.last_update_id kept) snapshot.last_update_id kept h)
  snapshot_ready-Decided snapshot b bids asks =
      let last = snapshot.last_update_id in
      let kept = survivors last (sequence_sort_buffer_flush s).0 in
      let beyond = kept-Beyond last s b in
      let decided = stale-reaches last kept (λ m a. (beyond.only m a).1) in
      (
        kept,
        beyond,
        elim (Bool-cases (reaches last kept)) [
          | inl near ↦ rw near (reached-Decided snapshot bids asks (rw near at decided))
          | inr far ↦ rw far (stale-Decided snapshot (rw far at decided))
        ],
      )
