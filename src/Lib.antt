-- ===== src/Lib.antt =====
-- market-tick-aggregator, modelled and verified.
--
-- The program takes market data from exchanges to books and aggregates over Kafka. The adapter puts
-- websocket messages into a ring and produces them raw; the normalizer orders them for each symbol and
-- publishes normalized messages; the order book and the aggregator read those, and the persistence
-- service writes what they publish. Every hop may replay records after a crash, and drops the replays
-- by the source offset that a record carries.
--
-- Files, and the code that they model:
--
--   Prelude            shared types, tests, lists, integers, association lists and sorting
--   Bytes              encoding/binary, big endian: the bytes of a machine word
--   Kafka              the record and partition types of the Kafka client
--   Adapter/Ring       adapter/ring/spsc_lock_free_queue.go: Queue is the abstract queue, Run any sequence
--                      of calls, Lapped a push in the middle of a pop
--   SrcOffset          shared/srcoffset: Codec is srcoffset.go; Words, Seen and Seen/* are seen.go
--                      (`check` is Seen.Check, `check_set` is SeenSet.Check)
--   IngestTs           shared/ingestts/ingestts.go
--   Normalizer/Tracker normalizer/kafka/source_tracker.go: the records in flight, and Frontier
--   Normalizer/State   normalizer/constants/constants.go: SymbolState and PipelineMessage
--   Normalizer/Orderer normalizer/utils/*_orderer.go, *_resync.go and normalizer/factory/orderer:
--                      Sequence, Time, Resync, and the six strategies in Strategy
--   Normalizer/Worker  normalizer/worker/worker.go: one symbol's messages from order to output, and
--                      the bound that parked records put on a commit
--   Normalizer/Backpressure
--                      normalizer/backpressure/backpressure.go
--   Orderbook/OrderedTree
--                      orderbook/orderedtree/ordered_tree.go: the interface, and Levels, what it promises
--                      as a list of levels
--   Orderbook/SkipList orderbook/orderedtree/skiplist: Cells and Chain are the order of its nodes and what
--                      holds of its pointers; Find; Link to Insertion an insert; Unlink to Deletion a
--                      delete; Get and Iterate; Tree the interface filled; Run any sequence of calls
--   Orderbook/Book     orderbook/book: the two sides over an ordered tree; Quotes a stream of quotes
--   Orderbook/Worker   orderbook/worker/worker.go: the books of a worker's symbols. Higher and Highest are
--                      the offsets of an ack, Keys the keys of a symbol in the worker and in Redis
--   Orderbook/Dispatcher
--                      orderbook/dispatcher/dispatcher.go and orderbook/flush/scheduler.go: Queue is what a
--                      worker's channel gets, Commit the way of a record to a commit
--   Orderbook/Snapshot orderbook/worker/worker.go: the snapshot of a worker's only symbol from the request
--                      to Redis, and Stuck, a request that is never answered
--   Orderbook/Backpressure
--                      orderbook/backpressure/backpressure.go: Counts is the counts of hot workers, Held
--                      what a call keeps, Run any sequence of calls
--   Orderbook/Coordinator
--                      orderbook/kafka/commit_coordinator.go: Minimum is the offsets of a commit, Acks the
--                      acks of an epoch, Commit what they start, Expiry timeouts and answers
--   Aggregator/Checkpoint
--                      aggregator/worker/worker.go, the at-least-once mode: Covers is when a state has a
--                      tick, Covered what every event keeps, Steps ticks and flushes, Batches and Acked
--                      the start and the end of a batch, Run any sequence of events,
--                      Logged states that carry the log of their changes,
--                      Erased and Committed the worker with and without logs
--   Aggregator/Windows aggregator/worker/worker.go: what a tick and a flush do to a symbol's windows
--   Aggregator/Rolling aggregator/internal/aggmetrics: Volume is rolling_volume_acc.go, Vwap rolling_vwap.go,
--                      Inside the bounds of the index, Agree the two rings side by side
--   Persistence/Batcher
--                      persistence/batcher/batcher.go: Flush is one flush, Clock any sequence of events
--
-- Conventions. Offsets, partitions, sequence ids and times are natural numbers: the broker and the
-- exchanges give none that is negative; a value that the code may take below zero (`last_seq_id`, the
-- fields of a decoded header) is an integer. A Go map is an association list, a map of maps one list
-- by the pair of keys. A uint64 of the bitset is its 64 flags. A goroutine that owns its state runs a
-- handler whole, so a handler is one function on the state, and timers, fetches and messages to other
-- goroutines are effects that it returns; the events that they cause later arrive in any order. The
-- order book's backpressure is the part under its mutex; the calls of the client come after it. A Go
-- panic is `none`. Logging and the program's own monitoring are left out.
--
-- Fuel and bounds. `clear_range` runs its loop on as many passes as the range has offsets; each pass
-- moves on by at least one. A walk on a level of the skip list, and an iterator, pass as many nodes as
-- the list has. The window spans 16384 offsets, as in the source.
--
-- Parameters. In the aggregator's metrics the operations of float64 are parameters without laws, since
-- they round. In the order books, a price is a type with a strict total
-- order, a quantity one with the test that it is not positive: float64 without NaN. `rand.Float64() <
-- p` is a sequence of coins. `Effects` is what a tick and a window's flush do to the windows of a
-- symbol, without laws; Aggregator/Windows fills it with the code's own. In
-- the order book's worker, what Redis holds, the decoding of a snapshot, whether a book is encoded,
-- and the difference of two prices are arguments; so is the entry that a map lookup finds, since the
-- keys of that map are strings over a buffer that is reused, and Go says nothing of a lookup once its
-- keys have changed.
--
-- Not modelled: the aggregator's other metrics, its transactional mode and its last checkpoint; the
-- loops and timers of the order book's goroutines; the Kafka, websocket, Redis and database clients,
-- JSON and protobuf, configuration, the processes' start and shutdown, and the services that only
-- serve or move data.
pub mod Prelude
pub mod Bytes
pub mod Kafka
pub mod SrcOffset
pub mod IngestTs
pub mod Adapter
pub mod Aggregator
pub mod Normalizer
pub mod Orderbook
pub mod Persistence
