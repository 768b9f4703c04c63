-- ===== src/Normalizer/Tracker/Frontier.antt =====
-- What `Frontier` may commit.
use market_tick_aggregator.Prelude.{
  ℕ, ◌≤◌, ◌<◌, ◌≡◌, refl, ◌∙◌, sym, ap, true, false, List, Option, none, some, arith, Option-cases,
  inl, inr,
}
use market_tick_aggregator.Prelude.Assoc.{Assoc, lookup, DistinctKeys, lookup-collect, bind_value}
use market_tick_aggregator.Kafka.{TopicPartition, tp_eq}
use market_tick_aggregator.Normalizer.Tracker.{
  EpochOffset, held_back, is_stale, frontier_entry, frontier, min_inflight,
}
use market_tick_aggregator.Normalizer.Tracker.Inflight.{
  Event, tracker_after, pending, AtMost, min_inflight-AtMost,
}

held_back-le : (bound : Option ℕ) (off : ℕ) → held_back bound off ≤ off
unfolding held_back
held_back-le none off = omega arith
held_back-le (some v) off = ground arith

held_back-AtMost : (bound : Option ℕ) (off x : ℕ) → AtMost bound x → held_back bound off ≤ x
unfolding held_back
held_back-AtMost none off x h = absurd h
held_back-AtMost (some v) off x h = ground arith

-- Nothing was committed for the partition, or something below `off`.
abbrev pub Advances : Option ℕ → ℕ → Type 0
Advances none off = Unit {0}
Advances (some prev) off = prev < off

pub is_stale-Advances : (last : Option ℕ) (off : ℕ) → is_stale last off ≡ false → Advances last off
unfolding is_stale
is_stale-Advances none off h = tt
is_stale-Advances (some prev) off h = ground arith

Advances-is_stale : (last : Option ℕ) (off : ℕ) → Advances last off → is_stale last off ≡ false
unfolding is_stale
Advances-is_stale none off h = refl
Advances-is_stale (some prev) off h = ground arith

module _ (inflight buffered last : Assoc TopicPartition ℕ)
    (uncommitted : Assoc TopicPartition EpochOffset) (distinct : DistinctKeys uncommitted)
    (k : TopicPartition) where
  lookup-frontier :
      lookup k (frontier inflight buffered last uncommitted)
      ≡ bind_value (lookup k uncommitted) (frontier_entry inflight buffered last k)
  unfolding frontier
  lookup-frontier = lookup-collect (frontier_entry inflight buffered last) k uncommitted distinct

  frontier_entry-eq-some :
      (polled eo : EpochOffset)
      → frontier_entry inflight buffered last k polled ≡ some eo
      → (eo.offset ≡ held_back (lookup k buffered) (held_back (lookup k inflight) polled.offset))
        × (is_stale (lookup k last) eo.offset ≡ false)
  unfolding frontier_entry
  frontier_entry-eq-some polled eo h = ground arith

  -- What `Frontier` lets a partition commit lies at or below the polled position and every bound,
  -- and above what was committed last.
  frontier-bounds :
      (eo : EpochOffset)
      → lookup k (frontier inflight buffered last uncommitted) ≡ some eo
      → ((polled : EpochOffset) × (lookup k uncommitted ≡ some polled)
          × (eo.offset ≤ polled.offset))
        × Advances (lookup k last) eo.offset
        × ((x : ℕ) → AtMost (lookup k inflight) x → eo.offset ≤ x)
        × ((x : ℕ) → AtMost (lookup k buffered) x → eo.offset ≤ x)
  frontier-bounds eo h = elim (Option-cases (lookup k uncommitted)) [
    | inl e ↦ absurd (
        cc (
          lookup-frontier,
          ap (λ (o : Option EpochOffset). bind_value o (frontier_entry inflight buffered last k)) e,
        ))
    | inr (polled, e) ↦
        let entry : frontier_entry inflight buffered last k polled ≡ some eo =
          sym (
            ap (λ (o : Option EpochOffset). bind_value o (frontier_entry inflight buffered last k))
              e)
          ∙ sym lookup-frontier
          ∙ h in
        let (at, fresh) = frontier_entry-eq-some polled eo entry in
        let low = held_back-le (lookup k inflight) polled.offset in
        let off = held_back (lookup k inflight) polled.offset in
        (
          (polled, e, omega (arith, at, low, held_back-le (lookup k buffered) off)),
          is_stale-Advances (lookup k last) eo.offset fresh,
          λ x b. omega (
            arith,
            at,
            held_back-AtMost (lookup k inflight) polled.offset x b,
            held_back-le (lookup k buffered) off,
          ),
          λ x b. omega (arith, at, held_back-AtMost (lookup k buffered) off x b),
        )
  ]

-- The limits of an entry, for the in-flight bounds of any history of produces and acks.
pub frontier-limits :
    (evs : List Event) (buffered last : Assoc TopicPartition ℕ)
    (uncommitted : Assoc TopicPartition EpochOffset) (k : TopicPartition) (eo : EpochOffset)
    → DistinctKeys uncommitted
    → lookup k (frontier (min_inflight (tracker_after evs)) buffered last uncommitted) ≡ some eo
    → ((off : ℕ) → pending k off evs ≡ true → eo.offset ≤ off)
      × ((off : ℕ) → AtMost (lookup k buffered) off → eo.offset ≤ off)
      × ((polled : EpochOffset) × (lookup k uncommitted ≡ some polled)
          × (eo.offset ≤ polled.offset))
      × Advances (lookup k last) eo.offset
frontier-limits evs buffered last uncommitted k eo distinct h =
    let (polled, advances, above, below) =
      frontier-bounds (min_inflight (tracker_after evs)) buffered last uncommitted distinct k eo
        h in
    (λ off p. above off (min_inflight-AtMost evs k off p), below, polled, advances)

-- In at-least-once mode the offset that `Frontier` lets a partition commit, for the in-flight bounds
-- of any history of produces and acks and whatever is buffered, is at or below every source offset
-- whose output is pending there; it is at or below the polled position, and above what was
-- committed last.
pub frontier-never_passes :
    (evs : List Event) (buffered last : Assoc TopicPartition ℕ)
    (uncommitted : Assoc TopicPartition EpochOffset) (k : TopicPartition) (eo : EpochOffset)
    (off : ℕ)
    → DistinctKeys uncommitted
    → lookup k (frontier (min_inflight (tracker_after evs)) buffered last uncommitted) ≡ some eo
    → pending k off evs ≡ true
    → (eo.offset ≤ off)
      × ((polled : EpochOffset) × (lookup k uncommitted ≡ some polled)
          × (eo.offset ≤ polled.offset))
      × Advances (lookup k last) eo.offset
frontier-never_passes evs buffered last uncommitted k eo off distinct h p =
    let (above, below, polled, advances) =
      frontier-limits evs buffered last uncommitted k eo distinct h in
    (above off p, polled, advances)

-- With nothing in flight or parked for a partition, the whole polled position is committed, if it
-- moved past what was committed last.
pub frontier-catches_up :
    (inflight buffered last : Assoc TopicPartition ℕ)
    (uncommitted : Assoc TopicPartition EpochOffset) (k : TopicPartition) (polled : EpochOffset)
    → DistinctKeys uncommitted
    → lookup k uncommitted ≡ some polled
    → lookup k inflight ≡ none
    → lookup k buffered ≡ none
    → Advances (lookup k last) polled.offset
    → lookup k (frontier inflight buffered last uncommitted) ≡ some polled
unfolding frontier_entry held_back
frontier-catches_up inflight buffered last uncommitted k polled distinct u i b a =
    rw (lookup-frontier inflight buffered last uncommitted distinct k, u, frontier_entry)
      (rw (i, b, held_back, Advances-is_stale (lookup k last) polled.offset a))
