-- ===== src/Normalizer/Worker/Commit.antt =====
-- normalizer/worker/worker.go, `commitFrontier`: the offsets that are committed, round by round.
use market_tick_aggregator.Prelude.{
  ℕ, ◌≤◌, ◌≡◌, List, [], ◌∷◌, Option, none, some, ◌==◌, arith, Bool-cases, Option-cases, inl, inr,
  beq_eq, subst,
}
use market_tick_aggregator.Prelude.Assoc.{Assoc, lookup, insert, lookup-insert, collect}
use market_tick_aggregator.Kafka.{TopicPartition, tp_eq}
use market_tick_aggregator.Normalizer.State.{SymbolState}
use market_tick_aggregator.Normalizer.Tracker.{
  SourceTracker, EpochOffset, min_inflight, frontier, frontier_entry,
}
use market_tick_aggregator.Normalizer.Tracker.Frontier.{Advances, is_stale-Advances}
use market_tick_aggregator.Normalizer.Worker.{buffered_sources}

-- the loop that records what is committed
unfoldable pub mark_committed :
    Assoc TopicPartition EpochOffset → Assoc TopicPartition ℕ → Assoc TopicPartition ℕ
mark_committed [] last = last
mark_committed ((k, eo) ∷ eos) last = mark_committed eos (insert k eo.offset last)

-- What one call sees: the tracker, the symbols, and the client's uncommitted offsets.
pub record Round : Type 0 where
  pub tracker : SourceTracker
  pub states : List SymbolState
  pub uncommitted : Assoc TopicPartition EpochOffset

-- The offsets to commit, and the map of what was committed last; an empty frontier changes nothing.
unfoldable pub commit_frontier :
    Round → Assoc TopicPartition ℕ → Assoc TopicPartition EpochOffset × Assoc TopicPartition ℕ
commit_frontier r last =
    let offsets =
      frontier (min_inflight r.tracker) (buffered_sources r.states) last r.uncommitted in
    (offsets, mark_committed offsets last)

unfoldable pub commit_rounds : List Round → Assoc TopicPartition ℕ → Assoc TopicPartition ℕ
commit_rounds [] last = last
commit_rounds (r ∷ rounds) last = commit_rounds rounds (commit_frontier r last).1

-- Nothing was committed before, or something no higher.
abbrev pub Rises : Option ℕ → Option ℕ → Type 0
Rises none after = Unit {0}
Rises (some before) none = ⊥
Rises (some before) (some after) = before ≤ after

Rises-refl : (o : Option ℕ) → Rises o o
Rises-refl none = tt
Rises-refl (some x) = omega arith

Rises-trans : (a b c : Option ℕ) → Rises a b → Rises b c → Rises a c
Rises-trans none b c h k = tt
Rises-trans (some a) none c h k = absurd h
Rises-trans (some a) (some b) none h k = absurd k
Rises-trans (some a) (some b) (some c) h k = omega arith

Advances-Rises : (last : Option ℕ) (off : ℕ) → Advances last off → Rises last (some off)
Advances-Rises none off h = tt
Advances-Rises (some prev) off h = omega arith

module _ (inflight buffered last : Assoc TopicPartition ℕ) (k : TopicPartition) where
  entry-Advances :
      (j : TopicPartition) (polled eo : EpochOffset)
      → frontier_entry inflight buffered last j polled ≡ some eo
      → Advances (lookup j last) eo.offset
  unfolding frontier_entry
  entry-Advances j polled eo h = is_stale-Advances (lookup j last) eo.offset (ground (arith, h))

  mark_committed-Rises :
      (us : Assoc TopicPartition EpochOffset) (m : Assoc TopicPartition ℕ)
      → Rises (lookup k last) (lookup k m)
      → Rises
          (lookup k last)
          (lookup k (mark_committed (collect (frontier_entry inflight buffered last) us) m))
  unfolding mark_committed collect
  mark_committed-Rises [] m h = h
  mark_committed-Rises ((j, polled) ∷ us) m h =
      elim (Option-cases (frontier_entry inflight buffered last j polled)) [
        | inl held ↦ rw (held, collect) (mark_committed-Rises us m h)
        | inr (eo, e) ↦
            rw (e, collect)
              (mark_committed-Rises us (insert j eo.offset m)
                (insert_step eo.offset (entry-Advances j polled eo e)))
      ]
    where
      insert_step :
          (off : ℕ)
          → Advances (lookup j last) off
          → Rises (lookup k last) (lookup k (insert j off m))
      insert_step off above = elim (Bool-cases (j == k)) [
        | inl same ↦
            rw (lookup-insert j k off m, same)
              (Advances-Rises (lookup k last) off (
                subst (λ (i : TopicPartition). Advances (lookup i last) off) (beq_eq j k same)
                  above))
        | inr other ↦ rw (lookup-insert j k off m, other) h
      ]

-- Over any rounds of commits, with whatever was produced, acked, parked and polled between them, the
-- offset that was committed last for a partition never falls and is never forgotten.
pub commit_rounds-Rises :
    (rounds : List Round) (last : Assoc TopicPartition ℕ) (k : TopicPartition)
    → Rises (lookup k last) (lookup k (commit_rounds rounds last))
unfolding commit_rounds commit_frontier frontier
commit_rounds-Rises [] last k = Rises-refl (lookup k last)
commit_rounds-Rises (r ∷ rounds) last k =
    Rises-trans (lookup k last) (lookup k (commit_frontier r last).1) _
      (mark_committed-Rises (min_inflight r.tracker) (buffered_sources r.states) last k
        r.uncommitted last (Rises-refl (lookup k last)))
      (commit_rounds-Rises rounds (commit_frontier r last).1 k)
