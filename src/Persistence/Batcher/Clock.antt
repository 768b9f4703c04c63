-- ===== src/Persistence/Batcher/Clock.antt =====
-- The batcher over any sequence of rows and timers.
use market_tick_aggregator.Prelude.{
  ◌≡◌, refl, sym, ap, ◌∙◌, ◌⊎◌, Bool, true, false, List, [], ◌∷◌, ◌++◌, if◌then◌else◌, leb, length,
  arith, Bool-cases, inl, inr, if_split, if_either, subst,
}
use mathlib.Core.List.{append-nil, append_assoc}
use market_tick_aggregator.Persistence.Batcher.{
  BatchItem, Batcher, Calls, Flushed, arm_linger, flush, idle, flush_unless_empty,
  handle_batch_and_flush, flush_if_needed, linger_fires,
}
use market_tick_aggregator.Persistence.Batcher.Flush.{valid_rows, flush-Settled, flush-Untouched}

-- A row arrives, or the linger timer fires; and how the calls go if that flushes.
pub data Event (T : Type 0) : Type 0 where
  arrives : BatchItem T → Calls T → Event T
  timer : Calls T → Event T

module _ {T : Type 0} (invalid : T → Bool) where
  abbrev pub step : Batcher T → Event T → Flushed T
  step b (arrives x calls) = handle_batch_and_flush invalid calls x b
  step b (timer calls) = linger_fires invalid calls b

  abbrev pub arrived : Event T → List (BatchItem T)
  arrived (arrives x calls) = x ∷ []
  arrived (timer calls) = []

  -- No row waits without a clock.
  abbrev pub Clocked : Batcher T → Type 0
  Clocked b = (b.items ≡ []) ⊎ (b.linger_armed ≡ true)

  -- The valid rows are those that are committed now, and those that still wait.
  abbrev Conserves : List (BatchItem T) → Flushed T → Type 0
  Conserves xs f = valid_rows invalid xs ≡ f.committed ++ valid_rows invalid f.batcher.items

  flush-Conserves : (calls : Calls T) (b : Batcher T) → Conserves b.items (flush invalid calls b)
  unfolding valid_rows
  flush-Conserves calls b = elim (Bool-cases (flush invalid calls b).failed) [
    | inl failed ↦
        let (same, nothing, unmarked) = flush-Untouched invalid calls b failed in rw (same, nothing)
    | inr fine ↦
        let s = flush-Settled invalid calls b fine in
        rw (s.all_valid, s.emptied) (sym (append-nil (valid_rows invalid b.items)))
  ]

  flush-Clocked :
      (calls : Calls T) (b : Batcher T)
      → b.linger_armed ≡ true
      → Clocked (flush invalid calls b).batcher
  flush-Clocked calls b armed = elim (Bool-cases (flush invalid calls b).failed) [
    | inl failed ↦
        inr (
          ap (λ (c : Batcher T). c.linger_armed) (flush-Untouched invalid calls b failed).0 ∙ armed)
    | inr fine ↦ inl (flush-Settled invalid calls b fine).emptied
  ]

  valid_rows-append :
      (xs ys : List (BatchItem T))
      → valid_rows invalid (xs ++ ys) ≡ valid_rows invalid xs ++ valid_rows invalid ys
  unfolding valid_rows
  valid_rows-append [] ys = refl
  valid_rows-append (x ∷ xs) ys = ground (arith, valid_rows-append xs ys)

  abbrev Good : List (BatchItem T) → Flushed T → Type 0
  Good xs f = Conserves xs f × Clocked f.batcher

  handle-Good :
      (calls : Calls T) (x : BatchItem T) (b : Batcher T)
      → Good (b.items ++ (x ∷ [])) (handle_batch_and_flush invalid calls x b)
  unfolding handle_batch_and_flush arm_linger
  handle-Good calls x b =
      let b' : Batcher T = record b { items = b.items ++ (x ∷ []); linger_armed = true } in
      if_either (Good (b.items ++ (x ∷ []))) (leb b.batch_size (length (b.items ++ (x ∷ []))))
        (flush-Conserves calls b', flush-Clocked calls b' refl) (refl, inr refl)

  -- What the timer does with the result of its flush.
  abbrev retry : Flushed T → Flushed T
  retry f = if f.failed then record f { batcher = arm_linger invalid f.batcher } else f

  retry-Good :
      (xs : List (BatchItem T)) (f : Flushed T)
      → Conserves xs f
      → (f.failed ≡ false → Clocked f.batcher)
      → Good xs (retry f)
  unfolding arm_linger
  retry-Good xs f conserves clocked =
      if_split (Good xs) f.failed (λ failed. (conserves, inr refl))
        (λ fine. (conserves, clocked fine))

  needed-idle :
      (calls : Calls T) (b : Batcher T)
      → b.items ≡ []
      → flush_if_needed invalid calls b ≡ idle invalid b
  unfolding flush_if_needed
  needed-idle calls b e = ap (flush_unless_empty invalid calls b) e

  needed-flush :
      (calls : Calls T) (b : Batcher T) (x : BatchItem T) (xs : List (BatchItem T))
      → b.items ≡ x ∷ xs
      → flush_if_needed invalid calls b ≡ flush invalid calls b
  unfolding flush_if_needed
  needed-flush calls b x xs e = ap (flush_unless_empty invalid calls b) e

  needed-Good :
      (calls : Calls T) (b : Batcher T) (xs : List (BatchItem T))
      → b.items ≡ xs
      → Good b.items (retry (flush_if_needed invalid calls b))
  needed-Good calls b [] e =
      subst (λ (f : Flushed T). Good b.items (retry f)) (sym (needed-idle calls b e)) (refl, inl e)
  needed-Good calls b (x ∷ xs) e =
      subst (λ (f : Flushed T). Good b.items (retry f)) (sym (needed-flush calls b x xs e))
        (retry-Good b.items (flush invalid calls b) (flush-Conserves calls b)
          (λ fine. inl (flush-Settled invalid calls b fine).emptied))

  timer-Good : (calls : Calls T) (b : Batcher T) → Good b.items (linger_fires invalid calls b)
  unfolding linger_fires
  timer-Good calls b = needed-Good calls (record b { linger_armed = false }) b.items refl

  step-Good : (b : Batcher T) (ev : Event T) → Good (b.items ++ arrived ev) (step b ev)
  step-Good b (arrives x calls) = handle-Good calls x b
  step-Good b (timer calls) = rw (append-nil b.items) (timer-Good calls b)

  -- The events in turn: what is committed in all, and the batcher at the end.
  unfoldable pub run : Batcher T → List (Event T) → List T × Batcher T
  run b [] = ([], b)
  run b (ev ∷ evs) =
      let (rows, b') = run (step b ev).batcher evs in ((step b ev).committed ++ rows, b')

  unfoldable pub all_arrived : List (Event T) → List (BatchItem T)
  all_arrived [] = []
  all_arrived (ev ∷ evs) = arrived ev ++ all_arrived evs

  -- Whatever the database and the dead letter queue do, over any sequence of rows and timers: the rows
  -- committed so far, followed by the valid rows that still wait, are the valid rows of the batch at
  -- the start and of the arrivals, each once and in order of arrival; and no row waits without a clock
  -- that runs, if none did at the start.
  pub run-Clocked :
      (b : Batcher T) (evs : List (Event T))
      → Clocked b
      → (valid_rows invalid (b.items ++ all_arrived evs)
          ≡ (run b evs).0 ++ valid_rows invalid (run b evs).1.items)
        × Clocked (run b evs).1
  unfolding run all_arrived
  run-Clocked b [] c = (rw (append-nil b.items), c)
  run-Clocked b (ev ∷ evs) c =
      let (conserves, clocked) = step-Good b ev in
      let (later, end) = run-Clocked (step b ev).batcher evs clocked in
      (
        ap (valid_rows invalid) (sym (append_assoc b.items (arrived ev) (all_arrived evs)))
            ∙ valid_rows-append (b.items ++ arrived ev) (all_arrived evs)
            ∙ ap (λ (l : List T). l ++ valid_rows invalid (all_arrived evs)) conserves
            ∙ append_assoc (step b ev).committed (valid_rows invalid (step b ev).batcher.items)
                (valid_rows invalid (all_arrived evs))
            ∙ ap (λ (l : List T). (step b ev).committed ++ l)
                (sym (valid_rows-append (step b ev).batcher.items (all_arrived evs)) ∙ later)
            ∙ sym (append_assoc (step b ev).committed (run (step b ev).batcher evs).0 _),
        end,
      )
