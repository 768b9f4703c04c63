-- ===== src/SrcOffset/Seen/Tests.antt =====
-- Concrete streams for the duplicate windows.
use market_tick_aggregator.Prelude.{ℕ, ◌≡◌, true, false, List, [], ◌∷◌, nat_eq, arith}
use market_tick_aggregator.Kafka.{TopicPartition, tp_eq}
use market_tick_aggregator.SrcOffset.Seen.{empty_seen, check}
use market_tick_aggregator.SrcOffset.Seen.Window.{already}
use market_tick_aggregator.SrcOffset.Seen.Once.{
  seen_after, check-seen_after, applied, applied-Distinct, Distinct, WithinReach, first_occurrences,
  applied-first_occurrences,
}
use market_tick_aggregator.SrcOffset.Seen.Set.{
  check_set, set_after, check_set-set_after, offsets_of,
}

-- a reordered stream with repeats
abbrev stream : List ℕ
stream = 7 ∷ 5 ∷ 7 ∷ 9 ∷ 5 ∷ []

stream-WithinReach : WithinReach [] stream
stream-WithinReach = (omega arith, (omega arith, (omega arith, (omega arith, (omega arith, tt)))))

applied-first_occurrences_example : applied empty_seen stream ≡ 7 ∷ 5 ∷ 9 ∷ []
unfolding first_occurrences
applied-first_occurrences_example = applied-first_occurrences stream stream-WithinReach

check-seen_after_example : (check (seen_after empty_seen stream) 5).0 ≡ true
unfolding already
check-seen_after_example = check-seen_after stream 5

applied-Distinct_example : Distinct (applied empty_seen stream)
applied-Distinct_example = applied-Distinct stream

abbrev trades : TopicPartition
trades = record { topic = 116 ∷ []; partition = 0 }

abbrev other_trades : TopicPartition
other_trades = record { topic = 116 ∷ []; partition = 1 }

abbrev calls : List (TopicPartition × ℕ)
calls = (trades, 4) ∷ (other_trades, 3) ∷ []

check_set-set_after_example : (check_set (set_after [] calls) other_trades 4).0 ≡ false
unfolding already offsets_of
check_set-set_after_example = check_set-set_after calls other_trades 4
