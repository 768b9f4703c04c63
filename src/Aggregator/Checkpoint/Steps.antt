-- ===== src/Aggregator/Checkpoint/Steps.antt =====
-- Ticks and flushes: what they do to the ticks that are covered.
use market_tick_aggregator.Prelude.{
  if◌then◌else◌, ◌≡◌, refl, sym, ap, ◌∙◌, Bool, true, false, ◌||◌, [], ◌∷◌, ◌++◌, none, some,
  contains, ◌==◌, Eq, here, there, Bool-cases, Option-cases, inl, inr, subst, beq_eq, beq_refl,
  contains-append, arith,
}
use market_tick_aggregator.Prelude.Assoc.{Assoc, lookup, insert, lookup-insert, keys}
use market_tick_aggregator.Kafka.{Text}
use market_tick_aggregator.Aggregator.Checkpoint.Covers.{
  Covers, update-Covers, keeps_update, keeps_flush,
}
use market_tick_aggregator.Aggregator.Checkpoint.{
  Effects, state_of, mark_dirty, process_tick, flush_states, flush_window,
}
use market_tick_aggregator.Aggregator.Checkpoint.Covered.{
  World, now, Covered, Moves, moved, moved-Covered, contains-mark_dirty,
}

module _ {K S T : Type 0} ⦃e : Eq K⦄ (x : Effects S T) (restore : K → S) where
  -- A tick that was applied before is not applied again.
  abbrev pub tick_step : K → T → World x restore → World x restore
  tick_step k t v = record v {
    worker = process_tick x restore k t v.worker;
    processed =
        if x.already_applied t (now x restore v k) then v.processed else (k, t) ∷ v.processed;
  }

  duplicate-Moves :
      (k : K) (v : World x restore)
      → Moves x restore v (insert k (now x restore v k) v.worker.symbol_state) v.worker.dirty
  duplicate-Moves k v = record {
    forward = λ j t h. subst (λ (s : S). Covers x s t) (sym (stays j)) h;
    marked = λ j d. (d, stays j);
  }
    where
      stays :
          (j : K)
          → state_of x restore (insert k (now x restore v k) v.worker.symbol_state) j
            ≡ now x restore v j
      stays j = elim (Bool-cases (k == j)) [
        | inl same ↦
            rw (lookup-insert k j (now x restore v k) v.worker.symbol_state, same)
              (ap (now x restore v) (beq_eq k j same))
        | inr other ↦ rw (lookup-insert k j (now x restore v k) v.worker.symbol_state, other)
      ]

  update-Moves :
      (k : K) (t : T) (v : World x restore)
      → Moves x restore v
          (insert k (x.update t (now x restore v k)) v.worker.symbol_state)
          (mark_dirty x restore k v.worker.dirty)
  update-Moves k t v = record {
    forward = λ j u h. elim (Bool-cases (k == j)) [
      | inl same ↦
          rw (lookup-insert k j (x.update t (now x restore v k)) v.worker.symbol_state, same)
            (keeps_update x u t (now x restore v k)
              (subst (λ (i : K). Covers x (now x restore v i) u) (sym (beq_eq k j same)) h))
      | inr other ↦
          rw (lookup-insert k j (x.update t (now x restore v k)) v.worker.symbol_state, other) h
    ];
    marked = λ j d.
        let clean : ((k == j) || contains j v.worker.dirty) ≡ false =
          sym (contains-mark_dirty x restore j k v.worker.dirty) ∙ d in
        (
          ground (arith, clean),
          rw (
            lookup-insert k j (x.update t (now x restore v k)) v.worker.symbol_state,
            or_left (k == j) (contains j v.worker.dirty) clean,
          ),
        );
  }
    where
      or_left : (a b : Bool) → (a || b) ≡ false → a ≡ false
      or_left true b h = cc h
      or_left false b h = refl

  add_processed :
      (k : K) (t : T) (v : World x restore)
      → Covers x (now x restore v k) t
      → Covered x restore v
      → Covered x restore (record v { processed = (k, t) ∷ v.processed })
  add_processed k t v h c = record {
    taken = λ j u a. elim a [
      | here q ↦ subst (λ (p : K × T). Covers x (now x restore v p.0) p.1) (sym q) h
      | there b ↦ c.taken j u b
    ];
    behind = c.behind;
    clean = c.clean;
    unique = c.unique;
    newer = c.newer;
    older = c.older;
    same = c.same;
    held = c.held;
    safe = c.safe;
  }

  pub tick-Covered :
      (k : K) (t : T) (v : World x restore)
      → Covered x restore v
      → Covered x restore (tick_step k t v)
  unfolding process_tick
  tick-Covered k t v c = elim (Bool-cases (x.already_applied t (now x restore v k))) [
    | inl duplicate ↦ rw duplicate (
        moved-Covered x restore v (insert k (now x restore v k) v.worker.symbol_state)
          v.worker.dirty (duplicate-Moves k v) c)
    | inr new ↦
        let m : Assoc K S = insert k (x.update t (now x restore v k)) v.worker.symbol_state in
        rw new (
          add_processed k t (moved x restore v m (mark_dirty x restore k v.worker.dirty))
            (rw
              (lookup-insert k k (x.update t (now x restore v k)) v.worker.symbol_state, beq_refl k)
              (update-Covers x t (now x restore v k)))
            (moved-Covered x restore v m (mark_dirty x restore k v.worker.dirty)
              (update-Moves k t v) c))
  ]

  abbrev pub flush_step : Text → World x restore → World x restore
  flush_step id v = record v { worker = flush_window x restore id v.worker }

  lookup-flush_states :
      (id : Text) (k : K) (m : Assoc K S)
      → lookup k (flush_states x restore id m)
        ≡ elim (lookup k m) [ none ↦ none | some s ↦ some (x.flush id s) ]
  unfolding flush_states lookup
  lookup-flush_states id k [] = refl
  lookup-flush_states id k ((j, s) ∷ m) = elim (Bool-cases (j == k)) [
    | inl same ↦ rw same
    | inr other ↦ rw other (lookup-flush_states id k m)
  ]

  pub keys-lookup : (k : K) (m : Assoc K S) → contains k (keys m) ≡ false → lookup k m ≡ none
  unfolding lookup
  keys-lookup k [] h = refl
  keys-lookup k ((j, s) ∷ m) h = ground (arith, keys-lookup k m)

  flush-Moves :
      (id : Text) (v : World x restore)
      → Moves x restore v
          (flush_states x restore id v.worker.symbol_state)
          (keys v.worker.symbol_state ++ v.worker.dirty)
  flush-Moves id v = record {
    forward = λ k t h. elim (Option-cases (lookup k v.worker.symbol_state)) [
      | inl absent ↦ rw (lookup-flush_states id k v.worker.symbol_state, absent) (rw absent at h)
      | inr (s, found) ↦
          rw (lookup-flush_states id k v.worker.symbol_state, found)
            (keeps_flush x id t s (rw found at h))
    ];
    marked = λ k d.
        let clean : (contains k (keys v.worker.symbol_state) || contains k v.worker.dirty) ≡ false =
          sym (contains-append k (keys v.worker.symbol_state) v.worker.dirty) ∙ d in
        let absent = keys-lookup k v.worker.symbol_state (ground (arith, clean)) in
        (ground (arith, clean), rw (lookup-flush_states id k v.worker.symbol_state, absent));
  }

  pub flush-Covered :
      (id : Text) (v : World x restore) → Covered x restore v → Covered x restore (flush_step id v)
  unfolding flush_window
  flush-Covered id v c = moved-Covered x restore v _ _ (flush-Moves id v) c
