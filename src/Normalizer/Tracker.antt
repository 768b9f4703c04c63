-- ===== src/Normalizer/Tracker.antt =====
-- normalizer/kafka/source_tracker.go: the consumed records whose output is not acked yet, and the
-- offset that is safe to commit. The tracker's mutex makes each method one step. A map of maps, topic
-- to partition, is one map by (topic, partition).
pub mod Inflight
pub mod Frontier
mod Tests
use market_tick_aggregator.Prelude.{
  ℕ, ◌+◌, Bool, true, false, ◌||◌, List, [], ◌∷◌, Option, none, some, ltb, leb, if◌then◌else◌,
  or_else, min, contains, nat_eq, ◌==◌,
}
use market_tick_aggregator.Prelude.Int.{ℤ}
use market_tick_aggregator.Prelude.Assoc.{Assoc, lookup, insert, collect}
use market_tick_aggregator.Kafka.{TopicPartition, tp_eq}

pub record SourceTracker : Type 0 where
  pub inflight : Assoc TopicPartition (List ℕ)
  pub failed : Bool

unfoldable pub new_source_tracker : SourceTracker
new_source_tracker = record { inflight = []; failed = false }

-- offs[off] = struct{}{}
unfoldable pub add_offset : ℕ → List ℕ → List ℕ
add_offset off [] = off ∷ []
add_offset off (x ∷ xs) = if x == off then x ∷ xs else x ∷ add_offset off xs

-- delete(offs, off)
unfoldable pub delete_offset : ℕ → List ℕ → List ℕ
delete_offset off [] = []
delete_offset off (x ∷ xs) = let rest = delete_offset off xs in if x == off then rest else x ∷ rest

unfoldable pub add : SourceTracker → TopicPartition → ℕ → SourceTracker
add t k off = record t {
  inflight = insert k (add_offset off (or_else (lookup k t.inflight) [])) t.inflight;
}

-- Deleting from the nil map of an unknown partition does nothing.
unfoldable pub done : SourceTracker → TopicPartition → ℕ → SourceTracker
done t k off = elim (lookup k t.inflight) [
  | none ↦ t
  | some offs ↦ record t { inflight = insert k (delete_offset off offs) t.inflight }
]

-- The offset stays in flight.
unfoldable pub fail : SourceTracker → TopicPartition → ℕ → SourceTracker
fail t k off = record t { failed = true }

-- the loop `if first || off < min`
unfoldable pub lowest : List ℕ → Option ℕ
lowest [] = none
lowest (off ∷ offs) = elim (lowest offs) [
  | none ↦ some off
  | some low ↦ some (if ltb off low then off else low)
]

unfoldable pub min_inflight : SourceTracker → Assoc TopicPartition ℕ
min_inflight t = collect (λ k offs. lowest offs) t.inflight

-- kgo.EpochOffset
pub record EpochOffset : Type 0 where
  pub epoch : ℤ
  pub offset : ℕ

-- if v, ok := bound[k]; ok && v < off { off = v }
unfoldable pub held_back : Option ℕ → ℕ → ℕ
held_back none off = off
held_back (some v) off = if ltb v off then v else off

-- if prev, ok := last[k]; ok && off <= prev { continue }
unfoldable pub is_stale : Option ℕ → ℕ → Bool
is_stale none off = false
is_stale (some prev) off = leb off prev

module _ (inflight buffered last : Assoc TopicPartition ℕ) where
  unfoldable pub frontier_entry : TopicPartition → EpochOffset → Option EpochOffset
  frontier_entry k eo =
      let off = held_back (lookup k buffered) (held_back (lookup k inflight) eo.offset) in
      if is_stale (lookup k last) off
      then none
      else some (record { epoch = eo.epoch; offset = off })

  unfoldable pub frontier : Assoc TopicPartition EpochOffset → Assoc TopicPartition EpochOffset
  frontier uncommitted = collect frontier_entry uncommitted
