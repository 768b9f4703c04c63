-- ===== src/Orderbook/Dispatcher.antt =====
-- orderbook/dispatcher/dispatcher.go and orderbook/flush/scheduler.go: which worker gets a record, and
-- what the workers' channels get of the records and of the flush epochs, in their order.
pub mod Queue
pub mod Commit
mod Tests
use market_tick_aggregator.Prelude.{
  ℕ, zero, suc, ◌+◌, ◌-◌, ◌*◌, ◌/◌, ◌%◌, ◌^◌, Bool, true, false, List, [], ◌∷◌, ◌++◌, if◌then◌else◌,
  ◌==◌, ◌&&◌, nat_eq,
}
use market_tick_aggregator.Kafka.{Text}
use market_tick_aggregator.Orderbook.Worker.{DispatchRecord, redis_key}

-- x ^ y of numbers below 2 ^ w
unfoldable pub xor : ℕ → ℕ → ℕ → ℕ
xor zero x y = 0
xor (suc w) x y = (x + y) % 2 + 2 * xor w (x / 2) (y / 2)

-- hash/fnv, New32a: one byte after the other
unfoldable pub fnv_write : ℕ → Text → ℕ
fnv_write hash [] = hash
fnv_write hash (c ∷ text) = fnv_write ((xor 32 hash c * 16777619) % 2 ^ 32) text

unfoldable pub fnv32a : Text → ℕ
fnv32a text = fnv_write 2166136261 text

-- int has 64 bits, so the hash stays positive
unfoldable pub worker_of : ℕ → Text → Text → ℕ
worker_of worker_count exchange symbol = fnv32a (redis_key exchange symbol) % worker_count

-- The events of a DispatchRecord that the dispatcher and the scheduler send.
pub data Message (P Q : Type 0) : Type 0 where
  process_event : DispatchRecord P Q → Message P Q
  flush_event : ℕ → Message P Q

-- A record that could be decoded, and whether its worker's channel has room for it; or a tick of the
-- scheduler, with the epoch and whether each channel has room.
pub data Arrival (P Q : Type 0) : Type 0 where
  record_arrived : Bool → DispatchRecord P Q → Arrival P Q
  epoch_tick : ℕ → List Bool → Arrival P Q

abbrev pub room_at : ℕ → List Bool → Bool
room_at i [] = false
room_at zero (room ∷ rooms) = room
room_at (suc i) (room ∷ rooms) = room_at i rooms

-- The workers that take part in an epoch: those whose channel took its flush event.
unfoldable pub participants_from : ℕ → List Bool → List ℕ
participants_from id [] = []
participants_from id (room ∷ rooms) =
    let rest = participants_from (suc id) rooms in if room then id ∷ rest else rest

-- What each worker's channel was given so far, the oldest first.
abbrev pub Channels : Type 0 → Type 0 → Type 0
Channels P Q = ℕ → List (Message P Q)

module _ {P Q : Type 0} where
  abbrev pub no_messages : Channels P Q
  no_messages i = []

  -- A full channel drops the message.
  abbrev pub offer : Bool → Message P Q → List (Message P Q) → List (Message P Q)
  offer true msg channel = channel ++ msg ∷ []
  offer false msg channel = channel

  -- the body of RunDispatcher's loop
  unfoldable pub dispatch : ℕ → Bool → DispatchRecord P Q → Channels P Q → Channels P Q
  dispatch worker_count room rec channels i =
      offer (room && (worker_of worker_count rec.exchange rec.symbol == i)) (process_event rec)
        (channels i)

  -- one tick of RunEpochFlushScheduler
  unfoldable pub send_flush : ℕ → List Bool → Channels P Q → Channels P Q
  send_flush epoch rooms channels i = offer (room_at i rooms) (flush_event epoch) (channels i)

  unfoldable pub arrive : ℕ → Arrival P Q → Channels P Q → Channels P Q
  arrive worker_count (record_arrived room rec) channels = dispatch worker_count room rec channels
  arrive worker_count (epoch_tick epoch rooms) channels = send_flush epoch rooms channels

  -- Arrivals in any interleaving.
  unfoldable pub run_arrivals : ℕ → List (Arrival P Q) → Channels P Q → Channels P Q
  run_arrivals worker_count [] channels = channels
  run_arrivals worker_count (a ∷ arrivals) channels =
      run_arrivals worker_count arrivals (arrive worker_count a channels)
