-- ===== src/Normalizer/Worker/Tests.antt =====
-- A concrete Binance depth symbol and a concrete book.
use market_tick_aggregator.Prelude.{
  Among, ℕ, ◌≤◌, ◌≡◌, ◌⊎◌, refl, inl, Bool, true, false, List, [], ◌∷◌, none, some, nat_eq,
  contains, here, there, is_some, string_eq, arith, Bool-cases, inr, ◌==◌, ap, sym, ◌∙◌, Option,
  or_else, beq_eq,
}
use market_tick_aggregator.Prelude.Int.{pos}
use market_tick_aggregator.Prelude.Sort.{StrictFrom}
use market_tick_aggregator.Prelude.Assoc.{lookup}
use market_tick_aggregator.Kafka.{Record, tp_eq}
use market_tick_aggregator.Normalizer.State.{
  PipelineMessage, binance_depth_update, SymbolState, zero_state,
}
use market_tick_aggregator.Normalizer.Orderer.Sequence.{
  sequence_orderer, sequence_sort_buffer_flush,
}
use market_tick_aggregator.Normalizer.Orderer.Sequence.Buffer.{
  SeqBuffer, empty-SeqBuffer, flush-StrictFrom, sequence_orderer-SeqBuffer,
}
use market_tick_aggregator.Normalizer.Orderer.Resync.{binance_depth_order, book_order_with_resync}
use market_tick_aggregator.Normalizer.Orderer.Strategy.{binance_depth_orderer}
use market_tick_aggregator.Normalizer.Worker.Commit.{
  Round, Rises, commit_rounds, commit_rounds-Rises,
}
use market_tick_aggregator.Normalizer.Worker.{Output}
use market_tick_aggregator.Kafka.{TopicPartition}
use market_tick_aggregator.Normalizer.Worker.Unsynced.{unsynced_flush-Among}
use market_tick_aggregator.Normalizer.Worker.{
  message, rest_snapshot, Handled, DepthSnapshot, flush_buffer, process_snapshot_ready, all_priced,
}
use market_tick_aggregator.Normalizer.Worker.Snapshot.{
  Beyond, Decided, reaches, snapshot_ready-Decided,
}
use market_tick_aggregator.Normalizer.Worker.Buffered.{parked-never_passed}
use market_tick_aggregator.Normalizer.Worker.Kept.{Kept, Discarded, order-Kept}
use market_tick_aggregator.Normalizer.Worker.Depth.{
  DepthEvent, arrives, gap_timer_fires, fetch_returns, Steps, depth_run, depth_run-SeqBuffer,
}
use market_tick_aggregator.Normalizer.Worker.{is_stale_snapshot}
use market_tick_aggregator.Normalizer.Worker.{survivors}
use market_tick_aggregator.Normalizer.Orderer.Sequence.{pick}
use market_tick_aggregator.Prelude.Sort.{sort}
use market_tick_aggregator.Normalizer.Tracker.{frontier}
use market_tick_aggregator.Prelude.Assoc.{collect}
use market_tick_aggregator.Normalizer.Tracker.{frontier_entry}
use market_tick_aggregator.Normalizer.Tracker.{is_stale}
use market_tick_aggregator.Normalizer.Tracker.{held_back}
use market_tick_aggregator.Normalizer.Worker.{buffered_sources}
use market_tick_aggregator.Normalizer.Worker.{note_states}
use market_tick_aggregator.Normalizer.Worker.{note_time}
use market_tick_aggregator.Normalizer.Worker.{note_seq}
use market_tick_aggregator.Normalizer.Worker.{note}
use market_tick_aggregator.Normalizer.Worker.{note_at}
use market_tick_aggregator.Prelude.Assoc.{insert}
use market_tick_aggregator.Normalizer.Tracker.{min_inflight}
use market_tick_aggregator.Normalizer.Tracker.{new_source_tracker}
use market_tick_aggregator.Normalizer.Orderer.Sequence.{order_next}
use market_tick_aggregator.Normalizer.Orderer.Sequence.{park_sequence}
use market_tick_aggregator.Normalizer.Worker.{build_snapshot_proto}
use market_tick_aggregator.Normalizer.Worker.{splice}
use market_tick_aggregator.Normalizer.Worker.{process_buffer}
use market_tick_aggregator.Normalizer.Worker.{process_messages}
use market_tick_aggregator.Normalizer.Orderer.Sequence.{sequence_orderer_cleanup}
use market_tick_aggregator.Normalizer.Orderer.Sequence.{sequence_ack}

abbrev source_record : Record
source_record = record {
  topic = 116 ∷ [];
  partition = 0;
  offset = 40;
  key = 98 ∷ [];
  value = [];
  headers = [];
}

-- an update with its first and final id
abbrev update : ℕ → ℕ → PipelineMessage
update first final = record {
  exchange = 98 ∷ [];
  channel = 100 ∷ [];
  symbol = 115 ∷ [];
  seq_id = final;
  ts = 5;
  raw_message = binance_depth_update first final;
  source = some source_record;
  event_type = "update";
}

-- two updates wait for the snapshot
abbrev waiting : SymbolState
waiting = record zero_state {
  buffer_seq_map = (20, update 11 20) ∷ (10, update 6 10) ∷ [];
  buffer_seq_id = 20 ∷ 10 ∷ [];
  needs_snapshot = true;
  snapshot_pending = true;
}

abbrev accept : PipelineMessage → Bool
accept msg = true

abbrev snapshot_at : ℕ → DepthSnapshot
snapshot_at last = record {
  last_update_id = last;
  bids = ((53 ∷ []) ∷ (49 ∷ []) ∷ []) ∷ [];
  asks = [];
}

waiting-SeqBuffer : SeqBuffer waiting
unfolding lookup
waiting-SeqBuffer = record {
  agree = λ id. ground arith;
  own = λ id msg h. elim (Bool-cases (20 == id)) [
    | inl last ↦
        ap (λ (o : Option PipelineMessage). (or_else o msg).seq_id) (sym (rw last at h))
        ∙ beq_eq 20 id last
    | inr other ↦ elim (Bool-cases (10 == id)) [
      | inl first ↦
          ap (λ (o : Option PipelineMessage). (or_else o msg).seq_id) (sym (rw (other, first) at h))
          ∙ beq_eq 10 id first
      | inr neither ↦ cc (rw (other, neither) at h)
    ]
  ];
  distinct = (refl, (refl, tt));
  calm = λ g n. cc n;
}

-- The first update beyond the snapshot adjoins it.
snapshot_ready-Decided_example :
    (kept : List PipelineMessage) × Beyond 10 waiting kept
    × ((h : Handled) × (process_snapshot_ready accept binance_depth_orderer true
            (some (snapshot_at 10))
            waiting
          ≡ some h)
        × Decided accept true waiting (reaches 10 kept) 10 kept h)
unfolding all_priced
snapshot_ready-Decided_example =
    snapshot_ready-Decided accept true waiting (snapshot_at 10) waiting-SeqBuffer refl refl

spliced_outputs :
    process_snapshot_ready accept binance_depth_orderer true (some (snapshot_at 10)) waiting
    ≡ some (record {
      state = record waiting {
        buffer_seq_map = [];
        buffer_seq_id = [];
        needs_snapshot = false;
        snapshot_pending = false;
        last_seq_id = pos 20;
      };
      outputs = rest_snapshot 10 ∷ message (update 11 20) ∷ [];
      refetch = false;
    })
unfolding process_snapshot_ready is_stale_snapshot survivors binance_depth_orderer
    sequence_sort_buffer_flush pick sort lookup build_snapshot_proto all_priced splice
    process_buffer process_messages sequence_orderer_cleanup sequence_ack
spliced_outputs = refl

order-Kept_example :
    Kept (update 21 30) (sequence_orderer (update 21 30) waiting)
    × Kept (update 21 30) (binance_depth_order (update 21 30) waiting)
    × (Kept (update 21 30) (book_order_with_resync (update 21 30) waiting)
        ⊎ Discarded (update 21 30) (book_order_with_resync (update 21 30) waiting))
order-Kept_example = order-Kept (update 21 30) waiting

-- the same messages in the buffer of one of two symbols; 40 is the lowest offset that is parked
parked-never_passed_example : 40 ≤ 40
unfolding lookup frontier collect frontier_entry is_stale held_back buffered_sources note_states
    note_time note_seq note note_at insert min_inflight new_source_tracker
parked-never_passed_example =
    parked-never_passed [] []
      ((record { topic = 116 ∷ []; partition = 0 }, record { epoch = pos 1; offset = 50 }) ∷ [])
      (zero_state ∷ waiting ∷ []) waiting (update 6 10) source_record
      (record { epoch = pos 1; offset = 40 }) (refl, tt) (there (here refl)) (inl refl) refl refl

abbrev events : List DepthEvent
events =
    arrives (update 1 9)
    ∷ gap_timer_fires
    ∷ arrives (update 10 12)
    ∷ fetch_returns true none
    ∷ fetch_returns true (some (snapshot_at 11))
    ∷ arrives (update 13 14)
    ∷ []

empty_buffer : SeqBuffer zero_state
empty_buffer = empty-SeqBuffer zero_state refl refl

depth_run-SeqBuffer_example : Steps accept (depth_run accept zero_state events)
unfolding all_priced
depth_run-SeqBuffer_example =
    depth_run-SeqBuffer accept zero_state events (tt, (tt, (tt, (tt, ((refl, refl), (tt, tt))))))
      empty_buffer

-- ten was passed on last, and three is parked behind the gap
abbrev passed_on : SymbolState
passed_on = record zero_state { last_seq_id = pos 10 }

gap_open : SeqBuffer (sequence_orderer (update 2 3) passed_on).state
gap_open =
    sequence_orderer-SeqBuffer (update 2 3) passed_on refl (empty-SeqBuffer passed_on refl refl)

flush-StrictFrom_example :
    StrictFrom 0 (3 ∷ [])
    × ((id : ℕ)
        → contains id (3 ∷ [])
          ≡ is_some (lookup id (sequence_orderer (update 2 3) passed_on).state.buffer_seq_map))
unfolding sequence_sort_buffer_flush pick sort sequence_orderer order_next park_sequence lookup
    insert
flush-StrictFrom_example = flush-StrictFrom (sequence_orderer (update 2 3) passed_on).state gap_open

-- the same symbol once a drop marker was seen
abbrev unsynced : SymbolState
unsynced = record (sequence_orderer (update 2 3) passed_on).state { needs_snapshot = true }

unsynced-SeqBuffer : SeqBuffer unsynced
unsynced-SeqBuffer = record {
  agree = gap_open.agree;
  own = gap_open.own;
  distinct = gap_open.distinct;
  calm = λ g n. cc n;
}

unsynced_flush-Among_example :
    (t : SymbolState) × (out : List Output) × (flush_buffer accept binance_depth_orderer unsynced
      ≡ some (t, out))
    × Among (message (update 2 3)) out
    × (t.buffer_seq_map ≡ [])
    × (t.needs_snapshot ≡ true)
unfolding lookup sequence_orderer order_next park_sequence insert
unsynced_flush-Among_example =
    unsynced_flush-Among accept unsynced 3 (update 2 3) unsynced-SeqBuffer refl refl refl

abbrev partition_0 : TopicPartition
partition_0 = record { topic = 116 ∷ []; partition = 0 }

-- the client has polled up to 50, and the record at 40 is parked
abbrev first_round : Round
first_round = record {
  tracker = new_source_tracker;
  states = waiting ∷ [];
  uncommitted = (partition_0, record { epoch = pos 1; offset = 50 }) ∷ [];
}

commit_rounds-Rises_example :
    Rises (some 30) (lookup partition_0 (commit_rounds (first_round ∷ []) ((partition_0, 30) ∷ [])))
unfolding lookup
commit_rounds-Rises_example =
    commit_rounds-Rises (first_round ∷ []) ((partition_0, 30) ∷ []) partition_0
