-- ===== src/Normalizer/Tracker/Inflight.antt =====
-- The tracker against the history of what was produced, acked and failed.
use market_tick_aggregator.Prelude.{
  ℕ, ◌≤◌, ◌≡◌, refl, ◌∙◌, Bool, true, false, not, ◌||◌, ◌&&◌, List, [], ◌∷◌, Option, none, some,
  or_else, contains, nat_eq, ◌==◌, arith, Bool-cases, Option-cases, inl, inr, beq_eq,
}
use market_tick_aggregator.Prelude.Assoc.{
  lookup, lookup-insert, DistinctKeys, insert-DistinctKeys, lookup-collect, bind_value,
}
use market_tick_aggregator.Kafka.{TopicPartition, tp_eq}
use market_tick_aggregator.Normalizer.Tracker.{
  SourceTracker, new_source_tracker, add_offset, delete_offset, add, done, fail, lowest,
  min_inflight,
}

-- What happens to the output of a source record: it is produced, and later acked or refused.
pub data Event : Type 0 where
  produced acked refused : TopicPartition → ℕ → Event

abbrev pub step : SourceTracker → Event → SourceTracker
step t (produced k off) = add t k off
step t (acked k off) = done t k off
step t (refused k off) = fail t k off

-- The newest event first.
abbrev pub tracker_after : List Event → SourceTracker
tracker_after [] = new_source_tracker
tracker_after (ev ∷ evs) = step (tracker_after evs) ev

abbrev pub is_in_flight : SourceTracker → TopicPartition → ℕ → Bool
is_in_flight t k off = contains off (or_else (lookup k t.inflight) [])

-- Produced, and not acked since.
unfoldable pub pending : TopicPartition → ℕ → List Event → Bool
pending k off [] = false
pending k off (produced j o ∷ evs) = (j == k) && (o == off) || pending k off evs
pending k off (acked j o ∷ evs) = not ((j == k) && (o == off)) && pending k off evs
pending k off (refused j o ∷ evs) = pending k off evs

contains-add_offset :
    (x off : ℕ) (xs : List ℕ) → contains x (add_offset off xs) ≡ ((off == x) || contains x xs)
unfolding add_offset
contains-add_offset x off [] = refl
contains-add_offset x off (y ∷ ys) = ground (arith, contains-add_offset x off ys)

contains-delete_offset :
    (x off : ℕ) (xs : List ℕ)
    → contains x (delete_offset off xs) ≡ (not (off == x) && contains x xs)
unfolding delete_offset
contains-delete_offset x off [] = ground arith
contains-delete_offset x off (y ∷ ys) = ground (arith, contains-delete_offset x off ys)

is_in_flight-add :
    (t : SourceTracker) (j k : TopicPartition) (o off : ℕ)
    → is_in_flight (add t j o) k off ≡ ((j == k) && (o == off) || is_in_flight t k off)
unfolding add
is_in_flight-add t j k o off = elim (Bool-cases (j == k)) [
  | inl same ↦ rw (lookup-insert, same, beq_eq j k same) (contains-add_offset off o _)
  | inr other ↦ rw (lookup-insert, other)
]

is_in_flight-done :
    (t : SourceTracker) (j k : TopicPartition) (o off : ℕ)
    → is_in_flight (done t j o) k off ≡ (not ((j == k) && (o == off)) && is_in_flight t k off)
unfolding done
is_in_flight-done t j k o off = elim (Option-cases (lookup j t.inflight)) [
  | inl unknown ↦ elim (Bool-cases (j == k)) [
    | inl same ↦ rw (unknown, done) (rw (← beq_eq j k same, unknown) (ground arith))
    | inr other ↦ rw (unknown, done) (rw other)
  ]
  | inr (offs, known) ↦ elim (Bool-cases (j == k)) [
    | inl same ↦
        rw (known, done)
          (rw (lookup-insert, same, ← beq_eq j k same, known) (contains-delete_offset off o offs))
    | inr other ↦ rw (known, done) (rw (lookup-insert, other))
  ]
]

-- After any history, an offset is in flight exactly when it was produced and not acked since. An
-- offset whose produce was refused therefore stays in flight.
pub is_in_flight-pending :
    (evs : List Event) (k : TopicPartition) (off : ℕ)
    → is_in_flight (tracker_after evs) k off ≡ pending k off evs
unfolding pending new_source_tracker fail lookup
is_in_flight-pending [] k off = refl
is_in_flight-pending (produced j o ∷ evs) k off =
    rw (is_in_flight-add (tracker_after evs) j k o off, is_in_flight-pending evs k off)
is_in_flight-pending (acked j o ∷ evs) k off =
    rw (is_in_flight-done (tracker_after evs) j k o off, is_in_flight-pending evs k off)
is_in_flight-pending (refused j o ∷ evs) k off = is_in_flight-pending evs k off

pub tracker_after-DistinctKeys : (evs : List Event) → DistinctKeys (tracker_after evs).inflight
unfolding new_source_tracker add done fail
tracker_after-DistinctKeys [] = tt
tracker_after-DistinctKeys (produced j o ∷ evs) =
    insert-DistinctKeys j _ _ (tracker_after-DistinctKeys evs)
tracker_after-DistinctKeys (acked j o ∷ evs) =
    elim (Option-cases (lookup j (tracker_after evs).inflight)) [
      | inl unknown ↦ rw (unknown, done) (tracker_after-DistinctKeys evs)
      | inr (offs, known) ↦
          rw (known, done) (insert-DistinctKeys j _ _ (tracker_after-DistinctKeys evs))
    ]
tracker_after-DistinctKeys (refused j o ∷ evs) = tracker_after-DistinctKeys evs

-- A bound that holds something back is there, and no higher than `off`.
abbrev pub AtMost : Option ℕ → ℕ → Type 0
AtMost none off = ⊥
AtMost (some low) off = low ≤ off

pub lowest-AtMost : (off : ℕ) (offs : List ℕ) → contains off offs ≡ true → AtMost (lowest offs) off
unfolding lowest
lowest-AtMost off [] h = cc
lowest-AtMost off (x ∷ xs) h = ground (arith, lowest-AtMost off xs)

pub lowest-mem : (low : ℕ) (offs : List ℕ) → lowest offs ≡ some low → contains low offs ≡ true
unfolding lowest
lowest-mem low [] h = cc
lowest-mem low (x ∷ xs) h = elim (Option-cases (lowest xs)) [
  | inl e ↦ ground (arith, e)
  | inr (v, e) ↦ ground (arith, e, lowest-mem v xs)
]

pub lookup-min_inflight :
    (evs : List Event) (k : TopicPartition)
    → lookup k (min_inflight (tracker_after evs))
      ≡ lowest (or_else (lookup k (tracker_after evs).inflight) [])
unfolding min_inflight lowest
lookup-min_inflight evs k =
    rw
      (lookup-collect (λ (j : TopicPartition) (offs : List ℕ). lowest offs) k
        (tracker_after evs).inflight (tracker_after-DistinctKeys evs))
      (bound (lookup k (tracker_after evs).inflight))
  where
    bound : (o : Option (List ℕ)) → bind_value o lowest ≡ lowest (or_else o [])
    bound none = refl
    bound (some offs) = refl

-- `MinInflight` names a partition's offset at or below any that is pending there.
pub min_inflight-AtMost :
    (evs : List Event) (k : TopicPartition) (off : ℕ)
    → pending k off evs ≡ true
    → AtMost (lookup k (min_inflight (tracker_after evs))) off
min_inflight-AtMost evs k off h =
    rw (lookup-min_inflight evs k) (lowest-AtMost off _ (is_in_flight-pending evs k off ∙ h))
