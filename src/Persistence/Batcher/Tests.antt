-- ===== src/Persistence/Batcher/Tests.antt =====
-- A batch of numbers; zero is corrupt.
use market_tick_aggregator.Prelude.{
  ℕ, ◌≡◌, ◌++◌, refl, Bool, true, false, List, [], ◌∷◌, inl, ◌==◌, nat_eq,
}
use market_tick_aggregator.Persistence.Batcher.{BatchItem, Batcher, Calls, flush}
use market_tick_aggregator.Persistence.Batcher.Flush.{
  Settled, flush-Settled, Untouched, flush-Untouched, valid_rows,
}
use market_tick_aggregator.Persistence.Batcher.Clock.{
  Event, arrives, timer, run, run-Clocked, Clocked, all_arrived,
}
use market_tick_aggregator.Persistence.Batcher.{flush_screened}
use market_tick_aggregator.Persistence.Batcher.{screen}
use market_tick_aggregator.Persistence.Batcher.{write}

abbrev is_zero : ℕ → Bool
is_zero n = n == 0

abbrev calls_with : Bool → Calls ℕ
calls_with commits = record {
  handle_event_error = λ n. true;
  init_tx = true;
  flush_fn = true;
  commit = commits;
}

abbrev row : ℕ → ℕ → BatchItem ℕ
row value offset = record { item = value; partition = 2; offset = offset }

abbrev batch : Batcher ℕ
batch = record { items = row 7 30 ∷ row 0 31 ∷ []; linger_armed = true; batch_size = 2 }

flush-Settled_example : Settled is_zero batch (flush is_zero (calls_with true) batch)
unfolding flush flush_screened screen write
flush-Settled_example = flush-Settled is_zero (calls_with true) batch refl

flush-Untouched_example : Untouched is_zero batch (flush is_zero (calls_with false) batch)
unfolding flush flush_screened screen write
flush-Untouched_example = flush-Untouched is_zero (calls_with false) batch refl

abbrev empty_batch : Batcher ℕ
empty_batch = record { items = []; linger_armed = false; batch_size = 2 }

-- the commit fails once, and the timer tries again
abbrev events : List (Event ℕ)
events =
    arrives (row 7 30) (calls_with true)
    ∷ arrives (row 8 31) (calls_with false)
    ∷ timer (calls_with true)
    ∷ []

run-Clocked_example :
    (7 ∷ 8 ∷ []
      ≡ (run is_zero empty_batch events).0
        ++ valid_rows is_zero (run is_zero empty_batch events).1.items)
    × Clocked is_zero (run is_zero empty_batch events).1
unfolding valid_rows all_arrived
run-Clocked_example = run-Clocked is_zero empty_batch events (inl refl)
