-- ===== src/Adapter/Ring/Tests.antt =====
-- A ring of two numbers.
use market_tick_aggregator.Prelude.{ℕ, ◌+◌, ◌≡◌, refl, List, [], ◌∷◌, none, some}
use market_tick_aggregator.Adapter.Ring.{SpscDropOldestRing, new_ring, push, pop_at}
use market_tick_aggregator.Adapter.Ring.Queue.{Holds, new_ring-Holds, push-Holds, put}
use market_tick_aggregator.Adapter.Ring.Run.{Op, pushes, pops, run, run_queue, run-run_queue}
use market_tick_aggregator.Adapter.Ring.Lapped.{lapped-pop_at}
use market_tick_aggregator.Adapter.Ring.{is_power_below}
use market_tick_aggregator.Adapter.Ring.Queue.{take}
use market_tick_aggregator.Adapter.Ring.Queue.{drop}

abbrev empty_ring : SpscDropOldestRing ℕ
empty_ring = record { buf = 0 ∷ 0 ∷ []; capacity = 2; head = 0; tail = 0 }

abbrev ops : List (Op ℕ)
ops = pushes 5 ∷ pushes 6 ∷ pushes 7 ∷ pops ∷ pops ∷ pops ∷ []

-- 5 is dropped
run-run_queue_example :
    ((run 0 ops empty_ring).0 ≡ some (6, 1) ∷ some (7, 0) ∷ none ∷ [])
    × Holds 0 (run 0 ops empty_ring).1 []
unfolding new_ring is_power_below run_queue take put drop
run-run_queue_example = run-run_queue 0 2 empty_ring ops refl

abbrev full : SpscDropOldestRing ℕ
full = record { buf = 5 ∷ 6 ∷ []; capacity = 2; head = 0; tail = 2 }

full-Holds : Holds 0 full (5 ∷ 6 ∷ [])
unfolding new_ring is_power_below put push
full-Holds =
    push-Holds 0 (push 0 5 empty_ring) (5 ∷ []) 6
      (push-Holds 0 empty_ring [] 5 (new_ring-Holds 0 2 empty_ring refl).0)

lapped-pop_at_example :
    ((pop_at 0 2 (push 0 7 full)).0 ≡ 7)
    × ((pop_at 0 2 (push 0 7 full)).2 ≡ 0)
    × ((pop_at 0 2 (push 0 7 full)).3.head + 2 ≡ (pop_at 0 2 (push 0 7 full)).3.tail)
lapped-pop_at_example = lapped-pop_at 0 full (5 ∷ 6 ∷ []) 7 full-Holds refl
