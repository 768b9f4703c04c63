-- ===== src/Aggregator/Checkpoint/Batches.antt =====
-- The start of a batch: what it holds, and which ticks a commit may pass.
use market_tick_aggregator.Prelude.{
  ℕ, ◌≡◌, refl, sym, ap, ◌∙◌, Bool, true, false, List, [], ◌∷◌, Option, none, some, if◌then◌else◌,
  or_else, contains, ◌==◌, Eq, Among, here, there, Bool-cases, inl, inr, subst, beq_eq, beq_refl,
  arith,
}
use market_tick_aggregator.Prelude.Assoc.{Assoc, lookup}
use market_tick_aggregator.Kafka.{TopicPartition}
use market_tick_aggregator.Aggregator.Checkpoint.Covers.{Covers}
use market_tick_aggregator.Aggregator.Checkpoint.{
  Effects, Batch, AggregatorWorker, state_of, encode_dirty, start_batch,
}
use market_tick_aggregator.Aggregator.Checkpoint.Covered.{pending, World, Covered}

module _ {K S T : Type 0} ⦃e : Eq K⦄ (x : Effects S T) (restore : K → S) where
  -- The positions are committed if nothing is to be saved; a new batch remembers what was processed.
  abbrev pub recorded :
      World x restore → AggregatorWorker K S × Option (Assoc TopicPartition ℕ) → World x restore
  recorded v (w, none) = elim w.in_flight [
    | none ↦ record v { worker = w }
    | some b ↦ record v { worker = w; batched = v.processed }
  ]
  recorded v (w, some positions) = record v { worker = w; committed = v.processed }

  lookup-encode_dirty :
      (k : K) (m : Assoc K S) (ks : List K)
      → lookup k (encode_dirty x restore m ks)
        ≡ (if contains k ks then some (state_of x restore m k) else none)
  unfolding encode_dirty lookup
  lookup-encode_dirty k m [] = refl
  lookup-encode_dirty k m (j ∷ ks) = elim (Bool-cases (j == k)) [
    | inl same ↦ rw same (ap (λ (i : K). some (state_of x restore m i)) (beq_eq j k same))
    | inr other ↦ rw other (lookup-encode_dirty k m ks)
  ]

  Among-encode_dirty :
      (k : K) (s : S) (m : Assoc K S) (ks : List K)
      → Among (k, s) (encode_dirty x restore m ks)
      → (contains k ks ≡ true) × (state_of x restore m k ≡ s)
  unfolding encode_dirty
  Among-encode_dirty k s m [] a = elim a [ ]
  Among-encode_dirty k s m (j ∷ ks) (here q) = (
    rw (ap (λ (p : K × S). p.0) (sym q)) (ground (arith, beq_refl k)),
    ap (λ (i : K). state_of x restore m i) (ap (λ (p : K × S). p.0) q)
        ∙ ap (λ (p : K × S). p.1) (sym q),
  )
  Among-encode_dirty k s m (j ∷ ks) (there a) =
      let (h, same) = Among-encode_dirty k s m ks a in (ground (arith, h), same)

  encoded :
      (k : K) (s : S) (m : Assoc K S) (ks : List K)
      → lookup k (encode_dirty x restore m ks) ≡ some s
      → state_of x restore m k ≡ s
  encoded k s m ks h = elim (Bool-cases (contains k ks)) [
    | inl has ↦
        ap (λ (o : Option S). or_else o s) (rw has at (sym (lookup-encode_dirty k m ks) ∙ h))
    | inr lacks ↦ cc (rw lacks at (sym (lookup-encode_dirty k m ks) ∙ h))
  ]

  not_encoded :
      (k : K) (m : Assoc K S) (ks : List K)
      → lookup k (encode_dirty x restore m ks) ≡ none
      → contains k ks ≡ false
  not_encoded k m ks h = elim (Bool-cases (contains k ks)) [
    | inl has ↦ cc (rw has at (sym (lookup-encode_dirty k m ks) ∙ h))
    | inr lacks ↦ lacks
  ]

  idle-Covered :
      (v : World x restore) (o : Option (Batch K S))
      → o ≡ none
      → Covered x restore v
      → Covered x restore (elim o [ none ↦ v | some b ↦ record v { batched = v.processed } ])
  idle-Covered v none h c = c
  idle-Covered v (some b) h c = cc h

  pub start-Covered :
      (positions : Assoc TopicPartition ℕ) (encodes : Bool) (v : World x restore) (dirty : List K)
      → v.worker.dirty ≡ dirty
      → v.worker.in_flight ≡ none
      → Covered x restore v
      → Covered x restore (recorded v (start_batch x restore positions encodes dirty v.worker))
  start-Covered positions encodes v [] d idle c = record {
    taken = c.taken;
    behind = c.behind;
    clean = c.clean;
    unique = c.unique;
    newer = c.newer;
    older = c.older;
    same = c.same;
    held = c.held;
    safe = λ k t a.
        c.clean k (ap (contains k) d) (ap (λ (o : Option (Batch K S)). pending x restore o k) idle)
          t (c.taken k t a);
  }
  start-Covered positions false v (j ∷ js) d idle c = idle-Covered v v.worker.in_flight idle c
  start-Covered positions true v (j ∷ js) d idle c = record {
    taken = c.taken;
    behind = c.behind;
    clean = λ k h p.
        c.clean k (ap (contains k) d ∙ not_encoded k v.worker.symbol_state (j ∷ js) p)
          (ap (λ (o : Option (Batch K S)). pending x restore o k) idle);
    unique = λ k s a.
        let (has, same) = Among-encode_dirty k s v.worker.symbol_state (j ∷ js) a in
        lookup-encode_dirty k v.worker.symbol_state (j ∷ js) ∙ rw has (ap some same);
    newer = λ k s p t h.
        subst (λ (u : S). Covers x u t) (encoded k s v.worker.symbol_state (j ∷ js) p)
          (c.behind k t h);
    older = λ k s p t h.
        subst (λ (u : S). Covers x u t) (sym (encoded k s v.worker.symbol_state (j ∷ js) p)) h;
    same = λ k s p clean t h.
        subst (λ (u : S). Covers x u t) (encoded k s v.worker.symbol_state (j ∷ js) p) h;
    held = λ k t a. elim (Bool-cases (contains k (j ∷ js))) [
      | inl has ↦ rw (lookup-encode_dirty k v.worker.symbol_state (j ∷ js), has) (c.taken k t a)
      | inr lacks ↦
          rw (lookup-encode_dirty k v.worker.symbol_state (j ∷ js), lacks)
            (c.clean k (ap (contains k) d ∙ lacks)
              (ap (λ (o : Option (Batch K S)). pending x restore o k) idle) t (c.taken k t a))
    ];
    safe = c.safe;
  }
