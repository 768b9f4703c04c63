-- ===== src/Orderbook/Backpressure/Held.antt =====
-- What each call keeps of the counts, the decisions to pause and the depths.
use market_tick_aggregator.Prelude.{
  ℕ, ◌+◌, ◌-◌, ◌≤◌, ◌<◌, ◌≡◌, refl, sym, ap, ◌∙◌, true, false, not, ◌&&◌, List, [], ◌++◌, Option,
  none, some, ltb, contains, ◌==◌, nat_eq, or_else, arith, Bool-cases, Option-cases, inl, inr,
  without, contains-without, contains-append, if_split, subst,
}
use market_tick_aggregator.Prelude.Assoc.{Assoc, lookup, insert, lookup-insert}
use market_tick_aggregator.Orderbook.Backpressure.{
  WorkerState, Backpressure, Calls, pause_fetch, resume_fetch, fresh_worker, count, raise, lower,
  enqueued, on_enqueue, dequeued, dequeue_known, on_dequeue,
}
use market_tick_aggregator.Orderbook.Backpressure.Counts.{
  weight, weight_of, total, total-insert, count-raise, count-lower, raise-pauses, lower-resumes,
  occurrences-add_partition,
}

-- A record goes to a worker's queue, or one leaves it.
pub data Event : Type 0 where
  enqueue : ℕ → ℕ → Event
  dequeue : ℕ → Event

abbrev pub step : Backpressure → Event → Backpressure × Calls
step bp (enqueue w p) = on_enqueue w p bp
step bp (dequeue w) = on_dequeue w bp

-- The partitions whose last decision was a pause. When the client is told of it is another matter: the
-- calls are made outside the mutex.
abbrev pub decided : List ℕ → Calls → List ℕ
decided held (pause_fetch ps) = ps ++ held
decided held (resume_fetch ps) = without ps held

-- A worker is running with its queue at the high threshold or below, or hot with it at the low
-- threshold or above.
pub record InBand (high low : ℕ) (s : WorkerState) : Type 0 where
  pub running : s.hot ≡ false → s.depth ≤ high
  pub waiting : s.hot ≡ true → low ≤ s.depth

-- What the calls keep, for thresholds `high` and `low`.
pub record Backed (high low : ℕ) (held : List ℕ) (bp : Backpressure) : Type 0 where
  pub same_high : bp.high_threshold ≡ high
  pub same_low : bp.low_threshold ≡ low
  pub bounded : (q : ℕ) → count bp.hot_count q ≤ total q bp.workers
  pub counted : (q : ℕ) → contains q held ≡ true → 0 < count bp.hot_count q
  pub in_band : (w : ℕ) (s : WorkerState) → lookup w bp.workers ≡ some s → InBand high low s

InBand-insert :
    (high low w : ℕ) (s : WorkerState) (m : Assoc ℕ WorkerState)
    → InBand high low s
    → ((v : ℕ) (t : WorkerState) → lookup v m ≡ some t → InBand high low t)
    → (v : ℕ) (t : WorkerState) → lookup v (insert w s m) ≡ some t
    → InBand high low t
InBand-insert high low w s m own others v t h = elim (Bool-cases (w == v)) [
  | inl same ↦
      subst (InBand high low)
        (ap (λ (o : Option WorkerState). or_else o s)
          (sym (rw same at (lookup-insert w v s m)) ∙ h))
        own
  | inr other ↦ others v t (sym (rw other at (lookup-insert w v s m)) ∙ h)
]

-- The old state of a worker whose queue grows.
known :
    (high low : ℕ) (o : Option WorkerState)
    → ((s : WorkerState) → o ≡ some s → InBand high low s)
    → InBand high low (or_else o fresh_worker)
known high low none f = record { running = λ h. omega arith; waiting = λ h. cc h }
known high low (some s) f = f s refl

known-weight : (q : ℕ) (o : Option WorkerState) → weight_of q o ≡ weight q (or_else o fresh_worker)
known-weight q none = refl
known-weight q (some s) = refl

cold-weight : (q : ℕ) (s : WorkerState) → s.hot ≡ false → weight q s ≡ 0
cold-weight q s h = rw h

weight-enqueued : (q p : ℕ) (s : WorkerState) → weight q s ≤ weight q (enqueued p s)
unfolding enqueued
weight-enqueued q p s = ground (arith, occurrences-add_partition q p s.partitions)

module _ (high low : ℕ) (order : low ≤ high + 1) where
  enqueue-Backed :
      (w p : ℕ) (held : List ℕ) (bp : Backpressure)
      → Backed high low held bp
      → Backed high low (decided held (on_enqueue w p bp).1) (on_enqueue w p bp).0
  unfolding on_enqueue enqueued
  enqueue-Backed w p held bp b =
      let old : WorkerState = or_else (lookup w bp.workers) fresh_worker in
      let new : WorkerState = enqueued p old in
      let band = known high low (lookup w bp.workers) (b.in_band w) in
      if_split (λ (o : Backpressure × Calls). Backed high low (decided held o.1) o.0)
        (ltb bp.high_threshold (old.depth + 1) && not old.hot)
        (λ heats. record {
          same_high = b.same_high;
          same_low = b.same_low;
          bounded = λ q. omega (
            arith,
            b.bounded q,
            count-raise q new.partitions bp.hot_count,
            total-insert q w (record new { hot = true }) bp.workers,
            known-weight q (lookup w bp.workers),
            cold-weight q old (ground (arith, heats)),
          );
          counted = λ q h. ground (
            arith,
            b.counted q,
            count-raise q new.partitions bp.hot_count,
            raise-pauses q new.partitions bp.hot_count,
            contains-append q (raise new.partitions bp.hot_count).1 held,
          );
          in_band =
              InBand-insert high low w _ bp.workers
                (record { running = λ h. cc h; waiting = λ h. ground (arith, heats, b.same_high) })
                b.in_band;
        })
        (λ stays. record {
          same_high = b.same_high;
          same_low = b.same_low;
          bounded = λ q. omega (
            arith,
            b.bounded q,
            total-insert q w new bp.workers,
            known-weight q (lookup w bp.workers),
            weight-enqueued q p old,
          );
          counted = b.counted;
          in_band =
              InBand-insert high low w _ bp.workers
                (record {
                  running = λ h. ground (arith, stays, h, b.same_high);
                  waiting = λ h. ground (arith, band.waiting, h);
                })
                b.in_band;
        })

  dequeue_known-Backed :
      (w : ℕ) (s : WorkerState) (held : List ℕ) (bp : Backpressure)
      → lookup w bp.workers ≡ some s
      → Backed high low held bp
      → Backed high low
          (decided held (dequeue_known w (dequeued s) bp).1)
          (dequeue_known w (dequeued s) bp).0
  unfolding dequeued
  dequeue_known-Backed w s held bp found b =
      let new : WorkerState = dequeued s in
      let band = b.in_band w s found in
      let old_weight : (q : ℕ) → weight_of q (lookup w bp.workers) ≡ weight q s =
        λ q. ap (weight_of q) found in
      if_split (λ (o : Backpressure × Calls). Backed high low (decided held o.1) o.0)
        (ltb (s.depth - 1) bp.low_threshold && s.hot)
        (λ cools. record {
          same_high = b.same_high;
          same_low = b.same_low;
          bounded = λ q. ground (
            arith,
            b.bounded q,
            count-lower q s.partitions bp.hot_count,
            total-insert q w (record new { hot = false }) bp.workers,
            old_weight q,
            cools,
          );
          counted = λ q h. ground (
            arith,
            b.counted q,
            contains-without q (lower s.partitions bp.hot_count).1 held,
            lower-resumes q s.partitions bp.hot_count,
          );
          in_band =
              InBand-insert high low w _ bp.workers
                (record { running = λ h. ground (arith, cools, b.same_low); waiting = λ h. cc h })
                b.in_band;
        })
        (λ stays. record {
          same_high = b.same_high;
          same_low = b.same_low;
          bounded = λ q. omega (arith, b.bounded q, total-insert q w new bp.workers, old_weight q);
          counted = λ q h. ground (arith, b.counted q, contains-without q [] held);
          in_band =
              InBand-insert high low w _ bp.workers
                (record {
                  running = λ h. ground (arith, band.running, h);
                  waiting = λ h. ground (arith, stays, h, b.same_low);
                })
                b.in_band;
        })

  dequeue-Backed :
      (w : ℕ) (held : List ℕ) (bp : Backpressure)
      → Backed high low held bp
      → Backed high low (decided held (on_dequeue w bp).1) (on_dequeue w bp).0
  unfolding on_dequeue
  dequeue-Backed w held bp b = elim (Option-cases (lookup w bp.workers)) [
    | inl absent ↦
        rw (absent, on_dequeue)
          (record {
            same_high = b.same_high;
            same_low = b.same_low;
            bounded = b.bounded;
            counted = λ q h. ground (arith, b.counted q, contains-without q [] held);
            in_band = b.in_band;
          })
    | inr (s, found) ↦ rw (found, on_dequeue) (dequeue_known-Backed w s held bp found b)
  ]

  pub step-Backed :
      (ev : Event) (held : List ℕ) (bp : Backpressure)
      → Backed high low held bp
      → Backed high low (decided held (step bp ev).1) (step bp ev).0
  step-Backed (enqueue w p) held bp b = enqueue-Backed w p held bp b
  step-Backed (dequeue w) held bp b = dequeue-Backed w held bp b
