-- ===== src/Orderbook/Backpressure/Run.antt =====
-- Which partitions are to be held back, over any calls for any workers.
use market_tick_aggregator.Prelude.{
  ℕ, ◌+◌, ◌≤◌, ◌<◌, ◌≡◌, refl, true, List, [], ◌∷◌, some, ltb, contains, nat_eq, arith, Bool-cases,
  inl, inr, Among, here, there,
}
use market_tick_aggregator.Prelude.Assoc.{Assoc, lookup}
use market_tick_aggregator.Orderbook.Backpressure.{WorkerState, Backpressure, init_backpressure}
use market_tick_aggregator.Orderbook.Backpressure.Counts.{occurrences, weight, total}
use market_tick_aggregator.Orderbook.Backpressure.Held.{
  Event, step, decided, InBand, Backed, step-Backed,
}

-- The events in the order in which they take the mutex: the pauses decided, and the state.
unfoldable pub run : List ℕ → Backpressure → List Event → List ℕ × Backpressure
run held bp [] = (held, bp)
run held bp (ev ∷ evs) = run (decided held (step bp ev).1) (step bp ev).0 evs

run_from :
    (high low : ℕ) (order : low ≤ high + 1) (evs : List Event) (held : List ℕ) (bp : Backpressure)
    → Backed high low held bp
    → Backed high low (run held bp evs).0 (run held bp evs).1
unfolding run
run_from high low order [] held bp b = b
run_from high low order (ev ∷ evs) held bp b =
    run_from high low order evs (decided held (step bp ev).1) (step bp ev).0
      (step-Backed high low order ev held bp b)

init-Backed : (high low : ℕ) → Backed high low [] (init_backpressure high low)
unfolding init_backpressure total lookup
init-Backed high low = record {
  same_high = refl;
  same_low = refl;
  bounded = λ q. omega arith;
  counted = λ q h. cc h;
  in_band = λ w s h. cc h;
}

-- A hot worker that has the partition.
abbrev pub HotWorker : ℕ → Assoc ℕ WorkerState → Type 0
HotWorker q m =
    (w : ℕ) × (s : WorkerState) × Among (w, s) m × (s.hot ≡ true) × (contains q s.partitions ≡ true)

occurrences-contains : (q : ℕ) (ps : List ℕ) → 0 < occurrences q ps → contains q ps ≡ true
unfolding occurrences
occurrences-contains q [] h = absurd (omega arith)
occurrences-contains q (p ∷ ps) h = ground (arith, occurrences-contains q ps)

total-HotWorker : (q : ℕ) (m : Assoc ℕ WorkerState) → 0 < total q m → HotWorker q m
unfolding total
total-HotWorker q [] h = absurd (omega arith)
total-HotWorker q ((w, s) ∷ m) h = elim (Bool-cases (ltb 0 (weight q s))) [
  | inl here_hot ↦ (
    w,
    s,
    here refl,
    ground (arith, here_hot),
    occurrences-contains q s.partitions (ground (arith, here_hot)),
  )
  | inr elsewhere ↦
      let (v, t, among, hot, has) = total-HotWorker q m (ground (arith, elsewhere)) in
      (v, t, there among, hot, has)
]

-- After any calls for any workers, in the order in which they take the mutex, and with a low threshold
-- at most one above the high one: a partition whose pause was decided, and whose resume was not decided
-- since, is a partition of some worker that is hot. When no worker is hot, every partition is to be
-- fetched.
pub held-HotWorker :
    (high low : ℕ) (evs : List Event) (q : ℕ)
    → low ≤ high + 1
    → contains q (run [] (init_backpressure high low) evs).0 ≡ true
    → HotWorker q (run [] (init_backpressure high low) evs).1.workers
held-HotWorker high low evs q order h =
    let b = run_from high low order evs [] (init_backpressure high low) (init-Backed high low) in
    total-HotWorker q _ (omega (arith, b.bounded q, b.counted q h))

-- After any calls for any workers, with a low threshold at most one above the high one, every worker
-- that is not hot has a queue at the high threshold or below, and every hot worker one at the low
-- threshold or above.
pub worker-InBand :
    (high low : ℕ) (evs : List Event) (w : ℕ) (s : WorkerState)
    → low ≤ high + 1
    → lookup w (run [] (init_backpressure high low) evs).1.workers ≡ some s
    → InBand high low s
worker-InBand high low evs w s order h =
    (run_from high low order evs [] (init_backpressure high low) (init-Backed high low)).in_band w s
      h
