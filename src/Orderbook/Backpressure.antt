-- ===== src/Orderbook/Backpressure.antt =====
-- orderbook/backpressure/backpressure.go: the depth of each worker's queue, and the partitions to pause
-- because a hot worker has them. A function here is the part that its call does under the mutex; it
-- returns the calls of the client, which the caller makes after it has released the mutex, so that the
-- calls of two goroutines may reach the client in another order. The code's maps by worker,
-- `workerBPMap` and `workerPartitionMap`, get their keys together and are one map here; the thresholds,
-- which it takes from the configuration, are fields.
pub mod Counts
pub mod Held
pub mod Run
mod Tests
use market_tick_aggregator.Prelude.{
  ℕ, ◌+◌, ◌-◌, Bool, true, false, not, ◌&&◌, List, [], ◌∷◌, ◌++◌, Option, none, some, ltb,
  if◌then◌else◌, contains, ◌==◌, nat_eq, or_else,
}
use market_tick_aggregator.Prelude.Assoc.{Assoc, lookup, insert}

-- `partitions` is a set: a list without repeats.
pub record WorkerState : Type 0 where
  pub depth : ℕ
  pub hot : Bool
  pub partitions : List ℕ

pub record Backpressure : Type 0 where
  pub workers : Assoc ℕ WorkerState
  pub hot_count : Assoc ℕ ℕ
  pub high_threshold : ℕ
  pub low_threshold : ℕ

-- The partitions that the caller then pauses, or resumes, at the client.
pub data Calls : Type 0 where
  pause_fetch resume_fetch : List ℕ → Calls

unfoldable pub init_backpressure : ℕ → ℕ → Backpressure
init_backpressure high low = record {
  workers = [];
  hot_count = [];
  high_threshold = high;
  low_threshold = low;
}

abbrev pub fresh_worker : WorkerState
fresh_worker = record { depth = 0; hot = false; partitions = [] }

-- m[p], 0 if there is none
abbrev pub count : Assoc ℕ ℕ → ℕ → ℕ
count m p = or_else (lookup p m) 0

unfoldable pub add_partition : ℕ → List ℕ → List ℕ
add_partition p ps = if contains p ps then ps else p ∷ ps

-- the loop that counts a hot worker in; the partitions to pause
unfoldable pub raise : List ℕ → Assoc ℕ ℕ → Assoc ℕ ℕ × List ℕ
raise [] m = (m, [])
raise (p ∷ ps) m =
    let n = count m p + 1 in
    let (m', pauses) = raise ps (insert p n m) in (m', if n == 1 then p ∷ pauses else pauses)

-- the loop that counts a cooled worker out, stopping at zero; the partitions to resume
unfoldable pub lower : List ℕ → Assoc ℕ ℕ → Assoc ℕ ℕ × List ℕ
lower [] m = (m, [])
lower (p ∷ ps) m =
    let n = count m p - 1 in
    let (m', resumes) = lower ps (insert p n m) in (m', if n == 0 then p ∷ resumes else resumes)

unfoldable pub enqueued : ℕ → WorkerState → WorkerState
enqueued p s = record s { depth = s.depth + 1; partitions = add_partition p s.partitions }

unfoldable pub on_enqueue : ℕ → ℕ → Backpressure → Backpressure × Calls
on_enqueue w p bp =
    let s = enqueued p (or_else (lookup w bp.workers) fresh_worker) in
    let (counts, pauses) = raise s.partitions bp.hot_count in
    if ltb bp.high_threshold s.depth && not s.hot
    then (
      record bp { workers = insert w (record s { hot = true }) bp.workers; hot_count = counts },
      pause_fetch pauses,
    )
    else (record bp { workers = insert w s bp.workers }, pause_fetch [])

-- A depth below zero is set to zero.
unfoldable pub dequeued : WorkerState → WorkerState
dequeued s = record s { depth = s.depth - 1 }

abbrev pub dequeue_known : ℕ → WorkerState → Backpressure → Backpressure × Calls
dequeue_known w s bp =
    let (counts, resumes) = lower s.partitions bp.hot_count in
    if ltb s.depth bp.low_threshold && s.hot
    then (
      record bp { workers = insert w (record s { hot = false }) bp.workers; hot_count = counts },
      resume_fetch resumes,
    )
    else (record bp { workers = insert w s bp.workers }, resume_fetch [])

unfoldable pub on_dequeue : ℕ → Backpressure → Backpressure × Calls
on_dequeue w bp = elim (lookup w bp.workers) [
  | none ↦ (bp, resume_fetch [])
  | some s ↦ dequeue_known w (dequeued s) bp
]
