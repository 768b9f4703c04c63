-- ===== src/Adapter/Ring/Run.antt =====
-- Pushes and pops in any order.
use market_tick_aggregator.Prelude.{
  ℕ, ◌+◌, ◌≡◌, refl, ap, ◌∙◌, Bool, List, [], ◌∷◌, Option, none, some, length, length-append, arith,
  subst, ◌-◌, ◌<◌, if_either, ◌==◌, nat_eq,
}
use mathlib.Core.Path.{ap₂}
use market_tick_aggregator.Adapter.Ring.{pop_at, SpscDropOldestRing, new_ring, push, pop}
use market_tick_aggregator.Adapter.Ring.Queue.{
  put, take, Holds, new_ring-Holds, push-Holds, pop-Pops, seen, left, length-drop,
}

pub data Op (A : Type 0) : Type 0 where
  pushes : A → Op A
  pops : Op A

module _ {A : Type 0} (d : A) where
  -- What the pops of a run return, and the ring after it.
  unfoldable pub run :
      List (Op A) → SpscDropOldestRing A → List (Option (A × ℕ)) × SpscDropOldestRing A
  run [] r = ([], r)
  run (pushes v ∷ ops) r = run ops (push d v r)
  run (pops ∷ ops) r = let (outs, r') = run ops (left d (pop d r)) in (seen d (pop d r) ∷ outs, r')

  unfoldable pub run_queue : ℕ → List (Op A) → List A → List (Option (A × ℕ)) × List A
  run_queue capacity [] q = ([], q)
  run_queue capacity (pushes v ∷ ops) q = run_queue capacity ops (put d v q)
  run_queue capacity (pops ∷ ops) q =
      let (outs, q') = run_queue capacity ops (take d capacity q).1 in
      ((take d capacity q).0 ∷ outs, q')

  push-capacity : (v : A) (r : SpscDropOldestRing A) → (push d v r).capacity ≡ r.capacity
  unfolding push
  push-capacity v r = refl

  pop-capacity : (r : SpscDropOldestRing A) → (left d (pop d r)).capacity ≡ r.capacity
  unfolding pop pop_at
  pop-capacity r =
      if_either (λ (o : A × Bool × ℕ × SpscDropOldestRing A). (left d o).capacity ≡ r.capacity)
        (r.head == r.tail) refl refl

  run_from :
      (capacity : ℕ) (ops : List (Op A)) (r : SpscDropOldestRing A) (q : List A)
      → r.capacity ≡ capacity
      → Holds d r q
      → ((run ops r).0 ≡ (run_queue capacity ops q).0)
        × Holds d (run ops r).1 (run_queue capacity ops q).1
  unfolding run run_queue
  run_from capacity [] r q c h = (refl, h)
  run_from capacity (pushes v ∷ ops) r q c h =
      run_from capacity ops (push d v r) (put d v q) (push-capacity v r ∙ c) (push-Holds d r q v h)
  run_from capacity (pops ∷ ops) r q c h =
      let (e, k) =
        subst
          (λ (n : ℕ).
            (seen d (pop d r) ≡ (take d n q).0) × Holds d (left d (pop d r)) (take d n q).1)
          c (pop-Pops d r q h) in
      let (outs, k') =
        run_from capacity ops (left d (pop d r)) (take d capacity q).1 (pop-capacity r ∙ c) k in
      (ap₂ ◌∷◌ e outs, k')

  -- Any sequence of pushes and pops on a new ring returns what an unbounded queue returns whose reader
  -- first skips all but the newest `capacity` entries and reports how many it skipped. The ring then
  -- holds the newest entries of that queue, and its two counters are as far apart as the queue is long.
  pub run-run_queue :
      (capacity : ℕ) (r : SpscDropOldestRing A) (ops : List (Op A))
      → new_ring d capacity ≡ some r
      → ((run ops r).0 ≡ (run_queue capacity ops []).0)
        × Holds d (run ops r).1 (run_queue capacity ops []).1
  run-run_queue capacity r ops h =
      let (empty, c) = new_ring-Holds d capacity r h in run_from capacity ops r [] c empty

  -- How many entries were pushed.
  unfoldable pub count_pushes : List (Op A) → ℕ
  count_pushes [] = 0
  count_pushes (pushes v ∷ ops) = 1 + count_pushes ops
  count_pushes (pops ∷ ops) = count_pushes ops

  -- How many entries the pops returned or reported as dropped.
  unfoldable pub accounted : List (Option (A × ℕ)) → ℕ
  accounted [] = 0
  accounted (none ∷ outs) = accounted outs
  accounted (some (v, dropped) ∷ outs) = 1 + dropped + accounted outs

  abbrev accounted_one : Option (A × ℕ) → ℕ
  accounted_one none = 0
  accounted_one (some (v, dropped)) = 1 + dropped

  accounted-cons :
      (o : Option (A × ℕ)) (outs : List (Option (A × ℕ)))
      → accounted (o ∷ outs) ≡ accounted_one o + accounted outs
  unfolding accounted
  accounted-cons none outs = omega arith
  accounted-cons (some (v, dropped)) outs = omega arith

  take-accounted :
      (capacity : ℕ) (q : List A)
      → 0 < capacity
      → length q ≡ accounted_one (take d capacity q).0 + length (take d capacity q).1
  unfolding take
  take-accounted capacity [] h = omega arith
  take-accounted capacity (x ∷ q) h =
      omega (arith, length-drop d (length (x ∷ q) - capacity + 1) (x ∷ q))

  run_queue-accounted :
      (capacity : ℕ) (ops : List (Op A)) (q : List A)
      → 0 < capacity
      → count_pushes ops + length q
        ≡ accounted (run_queue capacity ops q).0 + length (run_queue capacity ops q).1
  unfolding run_queue count_pushes accounted put
  run_queue-accounted capacity [] q h = omega arith
  run_queue-accounted capacity (pushes v ∷ ops) q h =
      omega (arith, run_queue-accounted capacity ops (put d v q) h, length-append q (v ∷ []))
  run_queue-accounted capacity (pops ∷ ops) q h = omega (
    arith,
    run_queue-accounted capacity ops (take d capacity q).1 h,
    take-accounted capacity q h,
    accounted-cons (take d capacity q).0 (run_queue capacity ops (take d capacity q).1).0,
  )

  -- After any sequence of pushes and pops on a new ring, every entry that was pushed was returned by
  -- a pop, or was reported by one as dropped, or lies between the ring's two counters.
  pub run-accounted :
      (capacity : ℕ) (r : SpscDropOldestRing A) (ops : List (Op A))
      → new_ring d capacity ≡ some r
      → count_pushes ops + (run ops r).1.head ≡ accounted (run ops r).0 + (run ops r).1.tail
  run-accounted capacity r ops h =
      let (empty, c) = new_ring-Holds d capacity r h in
      let (outs, holds) = run_from capacity ops r [] c empty in
      omega (
        arith,
        holds.counted,
        ap accounted outs,
        run_queue-accounted capacity ops [] (subst (λ (n : ℕ). 0 < n) c empty.positive),
      )
