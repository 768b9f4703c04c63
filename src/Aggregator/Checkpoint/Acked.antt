-- ===== src/Aggregator/Checkpoint/Acked.antt =====
-- The end of a batch: what it stores, and which ticks a commit may pass.
use market_tick_aggregator.Prelude.{
  ℕ, ◌≡◌, sym, ap, ◌∙◌, Bool, true, false, ◌||◌, List, [], Option, none, some, or_else, contains,
  Eq, Among, Bool-cases, Option-cases, inl, inr, ◌⊎◌, subst, contains-append, arith,
}
use market_tick_aggregator.Prelude.Assoc.{Assoc, lookup, keys}
use market_tick_aggregator.Kafka.{TopicPartition}
use market_tick_aggregator.Aggregator.Checkpoint.Covers.{Covers}
use market_tick_aggregator.Aggregator.Checkpoint.{
  Effects, Batch, state_of, finish_batch, write_acked, any_failed,
}
use market_tick_aggregator.Aggregator.Checkpoint.Covered.{
  pending, entries_of, Within, World, now, saved, Covered, write_acked-cases, all_acked,
}
use market_tick_aggregator.Aggregator.Checkpoint.Steps.{keys-lookup}

module _ {K S T : Type 0} ⦃e : Eq K⦄ (x : Effects S T) (restore : K → S) where
  -- Positions that are committed are those of the batch.
  abbrev committed_by : Option (Assoc TopicPartition ℕ) → World x restore → List (K × T)
  committed_by none v = v.committed
  committed_by (some positions) v = v.batched

  -- The batch in flight ends: the acked records are stored, and the positions are committed if the worker
  -- does so.
  abbrev pub ended : Batch K S → List Bool → World x restore → World x restore
  ended b acks v =
      let failed = any_failed x restore b.entries acks in
      record v {
        worker = (finish_batch x restore b failed v.worker).0;
        stored = write_acked x restore b.entries acks v.stored;
        batched = [];
        committed = committed_by (finish_batch x restore b failed v.worker).1 v;
      }

  module _ (b : Batch K S) (acks : List Bool) (v : World x restore) (c : Covered x restore v)
      (flying : v.worker.in_flight ≡ some b) where
    stored_after : K → S
    stored_after k = state_of x restore (write_acked x restore b.entries acks v.stored) k

    waits : (k : K) → pending x restore v.worker.in_flight k ≡ lookup k b.entries
    waits k = ap (λ (o : Option (Batch K S)). pending x restore o k) flying

    entry_unique : (k : K) (s : S) → Among (k, s) b.entries → lookup k b.entries ≡ some s
    entry_unique k s a =
        sym (waits k)
        ∙ c.unique k s (
            subst (λ (o : Option (Batch K S)). Among (k, s) (entries_of x restore o)) (sym flying)
              a)

    -- A symbol's stored state is as it was, or the one in the batch.
    stored_after-cases :
        (k : K)
        → (stored_after k ≡ saved x restore v k)
          ⊎ ((s : S) × (lookup k b.entries ≡ some s) × (stored_after k ≡ s))
    unfolding stored_after
    stored_after-cases k = elim (write_acked-cases x restore k b.entries acks v.stored) [
      | inl kept ↦ inl kept
      | inr (s, a, w) ↦ inr (s, entry_unique k s a, w)
    ]

    stored_after_absent : (k : K) → lookup k b.entries ≡ none → stored_after k ≡ saved x restore v k
    stored_after_absent k absent = elim (stored_after-cases k) [
      | inl kept ↦ kept
      | inr (s, found, w) ↦ cc (absent, found)
    ]

    behind_after : (k : K) → Within x restore (stored_after k) (now x restore v k)
    behind_after k t h = elim (stored_after-cases k) [
      | inl kept ↦ c.behind k t (subst (λ (u : S). Covers x u t) kept h)
      | inr (s, found, w) ↦ c.older k s (waits k ∙ found) t (subst (λ (u : S). Covers x u t) w h)
    ]

    -- What was stored, and is not any more, is in what replaced it.
    saved_before : (k : K) → Within x restore (saved x restore v k) (stored_after k)
    saved_before k t h = elim (stored_after-cases k) [
      | inl kept ↦ subst (λ (u : S). Covers x u t) (sym kept) h
      | inr (s, found, w) ↦
          subst (λ (u : S). Covers x u t) (sym w) (c.newer k s (waits k ∙ found) t h)
    ]

    stored_now :
        any_failed x restore b.entries acks ≡ false
        → (k : K) (s : S) → lookup k b.entries ≡ some s
        → stored_after k ≡ s
    unfolding stored_after
    stored_now fine k s found =
        all_acked x restore k s b.entries acks v.stored fine found
          (λ u a. ap (λ (o : Option S). or_else o s) (sym (entry_unique k u a) ∙ found))

    failed-Covered : any_failed x restore b.entries acks ≡ true → Covered x restore (ended b acks v)
    unfolding finish_batch stored_after
    failed-Covered failed = rw failed (record {
      taken = c.taken;
      behind = behind_after;
      clean = λ k d p t h.
          let lacks : (contains k (keys b.entries) || contains k v.worker.dirty) ≡ false =
            sym (contains-append k (keys b.entries) v.worker.dirty) ∙ d in
          let absent = keys-lookup x restore k b.entries (ground (arith, lacks)) in
          subst (λ (u : S). Covers x u t) (sym (stored_after_absent k absent))
            (c.clean k (ground (arith, lacks)) (waits k ∙ absent) t h);
      unique = λ k s a. elim a [ ];
      newer = λ k s p. cc p;
      older = λ k s p. cc p;
      same = λ k s p. cc p;
      held = λ k t a. elim a [ ];
      safe = λ k t a. saved_before k t (c.safe k t a);
    })

    acked-Covered : any_failed x restore b.entries acks ≡ false → Covered x restore (ended b acks v)
    unfolding finish_batch stored_after
    acked-Covered fine = rw fine (record {
      taken = c.taken;
      behind = behind_after;
      clean = λ k d p t h. elim (Option-cases (lookup k b.entries)) [
        | inl absent ↦
            subst (λ (u : S). Covers x u t) (sym (stored_after_absent k absent))
              (c.clean k d (waits k ∙ absent) t h)
        | inr (s, found) ↦
            subst (λ (u : S). Covers x u t) (sym (stored_now fine k s found))
              (c.same k s (waits k ∙ found) d t h)
      ];
      unique = λ k s a. elim a [ ];
      newer = λ k s p. cc p;
      older = λ k s p. cc p;
      same = λ k s p. cc p;
      held = λ k t a. elim a [ ];
      safe = λ k t a. elim (Option-cases (lookup k b.entries)) [
        | inl absent ↦
            subst (λ (u : S). Covers x u t) (sym (stored_after_absent k absent))
              (subst (λ (o : Option S). Covers x (or_else o (saved x restore v k)) t)
                (waits k ∙ absent) (c.held k t a))
        | inr (s, found) ↦
            subst (λ (u : S). Covers x u t) (sym (stored_now fine k s found))
              (subst (λ (o : Option S). Covers x (or_else o (saved x restore v k)) t)
                (waits k ∙ found) (c.held k t a))
      ];
    })

    pub ended-Covered : Covered x restore (ended b acks v)
    ended-Covered = elim (Bool-cases (any_failed x restore b.entries acks)) [
      | inl failed ↦ failed-Covered failed
      | inr fine ↦ acked-Covered fine
    ]
