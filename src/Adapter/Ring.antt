-- ===== src/Adapter/Ring.antt =====
-- adapter/ring/spsc_lock_free_queue.go: one producer, one consumer, and the oldest entries dropped.
-- `head` and `tail` count the entries; as uint64 they would wrap only after 2^64 pushes, so they are
-- natural numbers here, and `& mask`, the capacity being a power of two, is the remainder.
pub mod Queue
pub mod Run
pub mod Lapped
mod Tests
use market_tick_aggregator.Prelude.{
  ℕ, ◌+◌, ◌-◌, ◌%◌, ◌^◌, zero, suc, ◌||◌, Bool, true, false, List, [], ◌∷◌, Option, none, some, ltb,
  if◌then◌else◌, get_or, set, replicate, ◌==◌, nat_eq,
}

pub record SpscDropOldestRing (A : Type 0) : Type 0 where
  pub buf : List A
  pub capacity : ℕ
  pub head : ℕ
  pub tail : ℕ

-- Is it 2 ^ k for a k below the bound?
unfoldable pub is_power_below : ℕ → ℕ → Bool
is_power_below zero n = false
is_power_below (suc k) n = n == 2 ^ k || is_power_below k n

-- not (capacity == 0 || capacity&(capacity-1) != 0)
abbrev pub is_power_of_two : ℕ → Bool
is_power_of_two n = is_power_below n n

-- `zero_value` is the zero value of the entries' type.
module _ {A : Type 0} (zero_value : A) where
  -- The constructor panics (`none`) unless the capacity is a power of two.
  unfoldable pub new_ring : ℕ → Option (SpscDropOldestRing A)
  new_ring capacity =
      if is_power_of_two capacity
      then some
          (record { buf = replicate capacity zero_value; capacity = capacity; head = 0; tail = 0 })
      else none

  unfoldable pub push : A → SpscDropOldestRing A → SpscDropOldestRing A
  push v r = record r { buf = set r.buf (r.tail % r.capacity) v; tail = r.tail + 1 }

  -- How many entries were overwritten before they were read, for a tail that was loaded as `t`.
  abbrev pub overwritten : ℕ → SpscDropOldestRing A → ℕ
  overwritten t r = if ltb r.capacity (t - r.head) then t - r.head - r.capacity else 0

  -- the rest of `Pop`, once the ring was found to hold something
  unfoldable pub pop_at : ℕ → SpscDropOldestRing A → A × Bool × ℕ × SpscDropOldestRing A
  pop_at t r =
      let h = r.head + overwritten t r in
      (get_or r.buf (h % r.capacity) zero_value, true, overwritten t r, record r { head = h + 1 })

  unfoldable pub pop : SpscDropOldestRing A → A × Bool × ℕ × SpscDropOldestRing A
  pop r = if r.head == r.tail then (zero_value, false, 0, r) else pop_at r.tail r
