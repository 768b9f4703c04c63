-- ===== src/Normalizer/Worker/Buffered.antt =====
-- A record parked in an orderer holds the commit back.
use market_tick_aggregator.Prelude.{
  ℕ, ◌≤◌, ◌≡◌, sym, ap, List, [], ◌∷◌, Option, none, some, if◌then◌else◌, ltb, nat_eq, ◌==◌, arith,
  Bool-cases, Eq, Option-cases, inl, inr, Among, here, there, beq_eq, beq_refl, subst, or_else, ◌⊎◌,
}
use market_tick_aggregator.Prelude.Assoc.{Assoc, lookup, lookup-insert, DistinctKeys}
use market_tick_aggregator.Kafka.{Record, TopicPartition, tp_eq}
use market_tick_aggregator.Normalizer.State.{PipelineMessage, SymbolState}
use market_tick_aggregator.Normalizer.Tracker.Inflight.{Event, tracker_after, AtMost}
use market_tick_aggregator.Normalizer.Tracker.{EpochOffset, min_inflight, frontier}
use market_tick_aggregator.Normalizer.Tracker.Frontier.{frontier-limits}
use market_tick_aggregator.Normalizer.Worker.{
  source_of, note_at, note, note_all, note_seq, note_time, note_states, buffered_sources,
}

-- The orderer's buffers hold the message.
abbrev pub IsParked : PipelineMessage → SymbolState → Type 0
IsParked msg s =
    (lookup msg.seq_id s.buffer_seq_map ≡ some msg)
    ⊎ Among msg (or_else (lookup msg.ts s.buffer_time_map) [])

abbrev lower : Option ℕ → ℕ → ℕ
lower none off = off
lower (some cur) off = if ltb off cur then off else cur

lookup-note_at {ℓ} :
    {K : Type ℓ} ⦃e : Eq K⦄ (j k : K) (off : ℕ) (m : Assoc K ℕ)
    → lookup k (note_at j off m) ≡ (if j == k then some (lower (lookup j m) off) else lookup k m)
unfolding note_at
lookup-note_at j k off m = elim (Option-cases (lookup j m)) [
  | inl e ↦ rw (e, note_at) (lookup-insert j k off m)
  | inr (cur, e) ↦ elim (Bool-cases (ltb off cur)) [
    | inl less ↦ rw (e, note_at) (rw less (lookup-insert j k off m))
    | inr more ↦
        rw (e, note_at)
          (rw more (elim (Bool-cases (j == k)) [
            | inl same ↦ rw same (rw (← beq_eq j k same) e)
            | inr other ↦ rw other
          ]))
  ]
]

module _ (k : TopicPartition) (x : ℕ) where
  AtMost-note_at :
      (j : TopicPartition) (off : ℕ) (m : Assoc TopicPartition ℕ)
      → AtMost (lookup k m) x
      → AtMost (lookup k (note_at j off m)) x
  AtMost-note_at j off m h = elim (Bool-cases (j == k)) [
    | inl same ↦ rw (lookup-note_at j k off m, same) (lowered (lookup j m) (rw (beq_eq j k same) h))
    | inr other ↦ rw (lookup-note_at j k off m, other) h
  ]
    where
      lowered : (o : Option ℕ) → AtMost o x → lower o off ≤ x
      lowered none h = absurd h
      lowered (some cur) h = ground arith

  AtMost-note :
      (msg : PipelineMessage) (m : Assoc TopicPartition ℕ)
      → AtMost (lookup k m) x
      → AtMost (lookup k (note msg m)) x
  unfolding note
  AtMost-note msg m h = elim (Option-cases msg.source) [
    | inl e ↦ rw (e, note) h
    | inr (r, e) ↦ rw (e, note) (AtMost-note_at (source_of r) r.offset m h)
  ]

  AtMost-note_all :
      (msgs : List PipelineMessage) (m : Assoc TopicPartition ℕ)
      → AtMost (lookup k m) x
      → AtMost (lookup k (note_all msgs m)) x
  unfolding note_all
  AtMost-note_all [] m h = h
  AtMost-note_all (msg ∷ msgs) m h = AtMost-note_all msgs (note msg m) (AtMost-note msg m h)

  AtMost-note_seq :
      (parked : Assoc ℕ PipelineMessage) (m : Assoc TopicPartition ℕ)
      → AtMost (lookup k m) x
      → AtMost (lookup k (note_seq parked m)) x
  unfolding note_seq
  AtMost-note_seq [] m h = h
  AtMost-note_seq ((id, msg) ∷ parked) m h =
      AtMost-note_seq parked (note msg m) (AtMost-note msg m h)

  AtMost-note_time :
      (parked : Assoc ℕ (List PipelineMessage)) (m : Assoc TopicPartition ℕ)
      → AtMost (lookup k m) x
      → AtMost (lookup k (note_time parked m)) x
  unfolding note_time
  AtMost-note_time [] m h = h
  AtMost-note_time ((ts, msgs) ∷ parked) m h =
      AtMost-note_time parked (note_all msgs m) (AtMost-note_all msgs m h)

  AtMost-note_states :
      (states : List SymbolState) (m : Assoc TopicPartition ℕ)
      → AtMost (lookup k m) x
      → AtMost (lookup k (note_states states m)) x
  unfolding note_states
  AtMost-note_states [] m h = h
  AtMost-note_states (s ∷ states) m h =
      AtMost-note_states states _
        (AtMost-note_time s.buffer_time_map _ (AtMost-note_seq s.buffer_seq_map m h))

-- The message itself is noted.
module _ (msg : PipelineMessage) (r : Record) (e : msg.source ≡ some r) where
  abbrev Noted : Assoc TopicPartition ℕ → Type 0
  Noted m = AtMost (lookup (source_of r) m) r.offset

  note-Noted : (m : Assoc TopicPartition ℕ) → Noted (note msg m)
  unfolding note
  note-Noted m =
      rw (e, note)
        (rw (lookup-note_at (source_of r) (source_of r) r.offset m, beq_refl (source_of r))
          (lowered (lookup (source_of r) m)))
    where
      lowered : (o : Option ℕ) → lower o r.offset ≤ r.offset
      lowered none = omega arith
      lowered (some cur) = ground arith

  note_all-Noted :
      (msgs : List PipelineMessage) (m : Assoc TopicPartition ℕ)
      → Among msg msgs
      → Noted (note_all msgs m)
  unfolding note_all
  note_all-Noted [] m a = elim a [ ]
  note_all-Noted (y ∷ msgs) m (here p) =
      AtMost-note_all (source_of r) r.offset msgs (note y m)
        (subst (λ z. Noted (note z m)) p (note-Noted m))
  note_all-Noted (y ∷ msgs) m (there p) = note_all-Noted msgs (note y m) p

  note_seq-Noted :
      (parked : Assoc ℕ PipelineMessage) (m : Assoc TopicPartition ℕ) (id : ℕ)
      → lookup id parked ≡ some msg
      → Noted (note_seq parked m)
  unfolding note_seq lookup
  note_seq-Noted [] m id h = cc
  note_seq-Noted ((j, y) ∷ parked) m id h = elim (Bool-cases (j == id)) [
    | inl same ↦
        let p : y ≡ msg = ap (λ (o : Option PipelineMessage). or_else o y) (rw same at h) in
        AtMost-note_seq (source_of r) r.offset parked (note y m)
          (subst (λ z. Noted (note z m)) (sym p) (note-Noted m))
    | inr other ↦ note_seq-Noted parked (note y m) id (rw other at h)
  ]

  note_time-Noted :
      (parked : Assoc ℕ (List PipelineMessage)) (m : Assoc TopicPartition ℕ) (ts : ℕ)
      → Among msg (or_else (lookup ts parked) [])
      → Noted (note_time parked m)
  unfolding note_time lookup
  note_time-Noted [] m ts h = elim h [ ]
  note_time-Noted ((j, ys) ∷ parked) m ts h = elim (Bool-cases (j == ts)) [
    | inl same ↦
        AtMost-note_time (source_of r) r.offset parked (note_all ys m)
          (note_all-Noted ys m (rw same at h))
    | inr other ↦ note_time-Noted parked (note_all ys m) ts (rw other at h)
  ]

  note_states-Noted :
      (states : List SymbolState) (s : SymbolState) (m : Assoc TopicPartition ℕ)
      → Among s states
      → IsParked msg s
      → Noted (note_states states m)
  unfolding note_states
  note_states-Noted [] s m a p = elim a [ ]
  note_states-Noted (y ∷ states) s m (here q) p =
      AtMost-note_states (source_of r) r.offset states _ (parked_in y (subst (IsParked msg) q p))
    where
      parked_in :
          (y : SymbolState)
          → IsParked msg y
          → Noted (note_time y.buffer_time_map (note_seq y.buffer_seq_map m))
      parked_in y (inl l) =
          AtMost-note_time (source_of r) r.offset y.buffer_time_map _
            (note_seq-Noted y.buffer_seq_map m msg.seq_id l)
      parked_in y (inr l) = note_time-Noted y.buffer_time_map _ msg.ts l
  note_states-Noted (y ∷ states) s m (there q) p = note_states-Noted states s _ q p

-- An offset that is committed for a partition lies at or below the offset of every record of that
-- partition that is parked in the orderer of any of the worker's symbols, whatever was produced and
-- acked before and whatever was committed last; so the parked record is read again after a crash.
pub parked-never_passed :
    (evs : List Event) (last : Assoc TopicPartition ℕ)
    (uncommitted : Assoc TopicPartition EpochOffset) (states : List SymbolState) (s : SymbolState)
    (msg : PipelineMessage) (r : Record) (eo : EpochOffset)
    → DistinctKeys uncommitted
    → Among s states
    → IsParked msg s
    → msg.source ≡ some r
    → lookup
        (source_of r)
        (frontier (min_inflight (tracker_after evs)) (buffered_sources states) last uncommitted)
      ≡ some eo
    → eo.offset ≤ r.offset
unfolding buffered_sources
parked-never_passed evs last uncommitted states s msg r eo distinct a p e h =
    (frontier-limits evs (buffered_sources states) last uncommitted (source_of r) eo distinct h).1
      r.offset (note_states-Noted msg r e states s [] a p)
