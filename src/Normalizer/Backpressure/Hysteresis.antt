-- ===== src/Normalizer/Backpressure/Hysteresis.antt =====
-- When the fetches are paused, and which.
use market_tick_aggregator.Prelude.{
  ℕ, ◌+◌, ◌-◌, ◌≤◌, ◌≡◌, refl, true, false, not, ◌&&◌, ◌||◌, List, [], ◌∷◌, ◌++◌, ltb, contains,
  ◌==◌, arith, contains-append, if_split, beq_eq, without, contains-without,
}
use market_tick_aggregator.Kafka.{TopicPartition, tp_eq}
use market_tick_aggregator.Normalizer.Backpressure.{
  Controller, Call, pause_fetch, resume_fetch, new_controller, with_partition, on_enqueue,
  on_dequeue,
}

-- A record is enqueued, or one is dequeued.
pub data Event : Type 0 where
  enqueue : TopicPartition → Event
  dequeue : Event

abbrev pub step : Controller → Event → Controller × List Call
step c (enqueue tp) = on_enqueue tp c
step c dequeue = on_dequeue c

-- The partitions that the client does not fetch.
abbrev pub told : List TopicPartition → List Call → List TopicPartition
told held [] = held
told held (pause_fetch tps ∷ calls) = told (tps ++ held) calls
told held (resume_fetch tps ∷ calls) = told (without tps held) calls

contains-with_partition :
    (x tp : TopicPartition) (tps : List TopicPartition)
    → contains x (with_partition tp tps) ≡ ((tp == x) || contains x tps)
unfolding with_partition
contains-with_partition x tp tps = ground (arith, beq_eq tp x)

-- The client holds back partitions of the controller's only, and none once it is not paused; the
-- queue is at most at the high threshold then, and at least at the low one while it is paused.
pub record Balanced (held : List TopicPartition) (c : Controller) : Type 0 where
  pub own : (x : TopicPartition) → contains x held ≡ true → contains x c.partitions ≡ true
  pub free : (x : TopicPartition) → c.paused ≡ false → contains x held ≡ false
  pub running : c.paused ≡ false → c.depth ≤ c.high_threshold
  pub waiting : c.paused ≡ true → c.low_threshold ≤ c.depth

abbrev Good : List TopicPartition → ℕ → ℕ → Controller × List Call → Type 0
Good held high low (c, calls) =
    Balanced (told held calls) c × (c.high_threshold ≡ high) × (c.low_threshold ≡ low)

enqueue-Good :
    (tp : TopicPartition) (held : List TopicPartition) (c : Controller)
    → c.low_threshold ≤ c.high_threshold + 1
    → Balanced held c
    → Good held c.high_threshold c.low_threshold (on_enqueue tp c)
unfolding on_enqueue
enqueue-Good tp held c order b =
    if_split (Good held c.high_threshold c.low_threshold)
      (ltb c.high_threshold (c.depth + 1) && not c.paused)
      (λ hot. (
        record {
          own = λ x h. ground (
            arith,
            contains-append x (with_partition tp c.partitions) held,
            b.own x,
            contains-with_partition x tp c.partitions,
          );
          free = λ x h. cc h;
          running = λ h. cc h;
          waiting = λ h. ground (arith, hot);
        },
        refl,
        refl,
      ))
      (λ cool. (
        record {
          own = λ x h. ground (arith, b.own x, contains-with_partition x tp c.partitions);
          free = b.free;
          running = λ h. ground (arith, cool, h);
          waiting = λ h. ground (arith, b.waiting);
        },
        refl,
        refl,
      ))

dequeue-Good :
    (held : List TopicPartition) (c : Controller)
    → c.low_threshold ≤ c.high_threshold + 1
    → Balanced held c
    → Good held c.high_threshold c.low_threshold (on_dequeue c)
unfolding on_dequeue
dequeue-Good held c order b =
    if_split (Good held c.high_threshold c.low_threshold)
      (ltb (c.depth - 1) c.low_threshold && c.paused)
      (λ drained. (
        record {
          own = λ x h. ground (arith, contains-without x c.partitions held, b.own x);
          free = λ x h. ground (arith, contains-without x c.partitions held, b.own x);
          running = λ h. ground (arith, drained);
          waiting = λ h. cc h;
        },
        refl,
        refl,
      ))
      (λ still. (
        record {
          own = b.own;
          free = b.free;
          running = λ h. ground (arith, b.running);
          waiting = λ h. ground (arith, still, h);
        },
        refl,
        refl,
      ))

step-Good :
    (ev : Event) (held : List TopicPartition) (c : Controller)
    → c.low_threshold ≤ c.high_threshold + 1
    → Balanced held c
    → Good held c.high_threshold c.low_threshold (step c ev)
step-Good (enqueue tp) held c order b = enqueue-Good tp held c order b
step-Good dequeue held c order b = dequeue-Good held c order b

-- The events in turn: what the client holds back, and the controller.
unfoldable pub run :
    List TopicPartition → Controller → List Event → List TopicPartition × Controller
run held c [] = (held, c)
run held c (ev ∷ evs) = run (told held (step c ev).1) (step c ev).0 evs

run_from :
    (evs : List Event) (held : List TopicPartition) (c : Controller)
    → c.low_threshold ≤ c.high_threshold + 1
    → Balanced held c
    → Balanced (run held c evs).0 (run held c evs).1
unfolding run
run_from [] held c order b = b
run_from (ev ∷ evs) held c order b =
    let (b', high, low) = step-Good ev held c order b in
    run_from evs (told held (step c ev).1) (step c ev).0 (omega (arith, high, low)) b'

-- From a new controller whose low threshold is at most one above the high one, after any records
-- enqueued and dequeued: the client holds back only partitions that the worker has seen, and none
-- unless the controller is paused; it is paused only with the queue at the low threshold or above, and
-- running only with the queue at the high threshold or below.
pub run-Balanced :
    (high low : ℕ) (evs : List Event)
    → low ≤ high + 1
    → Balanced (run [] (new_controller high low) evs).0 (run [] (new_controller high low) evs).1
unfolding new_controller
run-Balanced high low evs order = run_from evs [] (new_controller high low) order (record {
  own = λ x h. cc h;
  free = λ x h. refl;
  running = λ h. omega arith;
  waiting = λ h. cc h;
})
