-- ===== src/Normalizer/Tracker/Tests.antt =====
-- A concrete partition of the normalizer's input.
use market_tick_aggregator.Prelude.{◌≤◌, ◌≡◌, refl, true, List, [], ◌∷◌, some, nat_eq}
use market_tick_aggregator.Prelude.Int.{pos}
use market_tick_aggregator.Prelude.Assoc.{Assoc, lookup}
use market_tick_aggregator.Kafka.{TopicPartition, tp_eq}
use market_tick_aggregator.Normalizer.Tracker.{
  EpochOffset, frontier, min_inflight, new_source_tracker, add, done, fail,
}
use market_tick_aggregator.Normalizer.Tracker.Inflight.{
  Event, produced, acked, refused, tracker_after, is_in_flight, pending, is_in_flight-pending,
}
use market_tick_aggregator.Normalizer.Tracker.Frontier.{Advances, frontier-never_passes}
use market_tick_aggregator.Prelude.Assoc.{collect}
use market_tick_aggregator.Normalizer.Tracker.{frontier_entry}
use market_tick_aggregator.Normalizer.Tracker.{is_stale}
use market_tick_aggregator.Normalizer.Tracker.{held_back}
use market_tick_aggregator.Prelude.Assoc.{insert}
use market_tick_aggregator.Normalizer.Tracker.{lowest}
use market_tick_aggregator.Normalizer.Tracker.{delete_offset}
use market_tick_aggregator.Normalizer.Tracker.{add_offset}

abbrev trades : TopicPartition
trades = record { topic = 116 ∷ []; partition = 0 }

-- 10 and 11 were produced, 10 was acked, 11 was refused; the newest event first
abbrev events : List Event
events = refused trades 11 ∷ acked trades 10 ∷ produced trades 11 ∷ produced trades 10 ∷ []

abbrev polled : EpochOffset
polled = record { epoch = pos 1; offset = 15 }

abbrev uncommitted : Assoc TopicPartition EpochOffset
uncommitted = (trades, polled) ∷ []

abbrev committed : EpochOffset
committed = record { epoch = pos 1; offset = 11 }

is_in_flight-pending_example : is_in_flight (tracker_after events) trades 11 ≡ true
unfolding pending
is_in_flight-pending_example = is_in_flight-pending events trades 11

frontier-never_passes_example :
    (11 ≤ 11)
    × ((eo : EpochOffset) × (lookup trades uncommitted ≡ some eo) × (11 ≤ eo.offset))
    × Advances (lookup trades ((trades, 9) ∷ [])) 11
unfolding lookup frontier collect frontier_entry is_stale held_back min_inflight fail done add
    insert new_source_tracker lowest delete_offset add_offset pending
frontier-never_passes_example =
    frontier-never_passes events [] ((trades, 9) ∷ []) uncommitted trades committed 11 (refl, tt)
      refl refl
