-- ===== src/Orderbook/Coordinator.antt =====
-- orderbook/kafka/commit_coordinator.go: the workers' acks of a flush epoch, and the offsets that are
-- committed for it. The coordinator's goroutine runs each function whole. Times are milliseconds.
pub mod Minimum
pub mod Acks
pub mod Commit
pub mod Expiry
mod Tests
use market_tick_aggregator.Prelude.{
  ℕ, ◌+◌, ◌-◌, Bool, true, false, List, [], ◌∷◌, ◌++◌, Option, none, some, ltb, leb, if◌then◌else◌,
  min, max, contains, nat_eq, ◌==◌, not,
}
use market_tick_aggregator.Prelude.Assoc.{Assoc, lookup, insert, delete}

-- `Participants` is a set: a list without repeats, of those yet to ack.
pub record EpochState : Type 0 where
  pub created_at : ℕ
  pub participants : List ℕ
  pub acks : Assoc ℕ (Assoc ℕ ℕ)

pub record CommitCoordinator : Type 0 where
  pub epoch_map : Assoc ℕ EpochState
  pub epoch_timeout : ℕ
  pub last_committed_epoch : ℕ

-- constants.Ack
pub record Ack : Type 0 where
  pub epoch : ℕ
  pub worker_id : ℕ
  pub partition_offsets : Assoc ℕ ℕ

pub data EventType : Type 0 where
  flush_ack check_epoch_timeouts : EventType

-- A call of the client's CommitOffsets: the lowest offset of each partition, which the callback hands
-- on, and the next offset to read, which is committed.
pub record CommitRequest : Type 0 where
  pub event : EventType
  pub epoch : ℕ
  pub offsets : Assoc ℕ ℕ
  pub uncommitted : Assoc ℕ ℕ

pub record CommitResult : Type 0 where
  pub event : EventType
  pub epoch : ℕ
  pub offsets : Assoc ℕ ℕ
  pub failed : Bool

abbrev pub epoch_timeout_ms : ℕ
epoch_timeout_ms = 120000

unfoldable pub new_coordinator : CommitCoordinator
new_coordinator = record {
  epoch_map = [];
  epoch_timeout = epoch_timeout_ms;
  last_committed_epoch = 0;
}

-- An epoch that exists already is left alone.
unfoldable pub start_epoch : ℕ → ℕ → List ℕ → CommitCoordinator → CommitCoordinator
start_epoch now epoch participants c = elim (lookup epoch c.epoch_map) [
  | none ↦ record c {
    epoch_map =
        insert epoch (record { created_at = now; participants = participants; acks = [] })
          c.epoch_map;
  }
  | some state ↦ c
]

-- delete(Participants, worker)
unfoldable pub remove : ℕ → List ℕ → List ℕ
remove w [] = []
remove w (x ∷ xs) = let rest = remove w xs in if x == w then rest else x ∷ rest

-- the body of the inner loop
unfoldable pub note_min : ℕ → ℕ → Assoc ℕ ℕ → Assoc ℕ ℕ
note_min p off lowest = elim (lookup p lowest) [
  | none ↦ insert p off lowest
  | some cur ↦ insert p (min cur off) lowest
]

unfoldable pub note_offsets : Assoc ℕ ℕ → Assoc ℕ ℕ → Assoc ℕ ℕ
note_offsets [] lowest = lowest
note_offsets ((p, off) ∷ offs) lowest = note_offsets offs (note_min p off lowest)

unfoldable pub min_offsets : Assoc ℕ (Assoc ℕ ℕ) → Assoc ℕ ℕ → Assoc ℕ ℕ
min_offsets [] lowest = lowest
min_offsets ((w, offs) ∷ acks) lowest = min_offsets acks (note_offsets offs lowest)

-- the offset to read next
unfoldable pub next_offsets : Assoc ℕ ℕ → Assoc ℕ ℕ
next_offsets [] = []
next_offsets ((p, off) ∷ offs) = (p, off + 1) ∷ next_offsets offs

unfoldable pub commit_epoch_offsets : EventType → ℕ → EpochState → CommitRequest
commit_epoch_offsets event epoch state =
    let offsets = min_offsets state.acks [] in
    record { event = event; epoch = epoch; offsets = offsets; uncommitted = next_offsets offsets }

-- A worker that takes part and has not acked yet.
unfoldable pub take_ack : Ack → EpochState → EpochState
take_ack ack state = record state {
  participants = remove ack.worker_id state.participants;
  acks = insert ack.worker_id ack.partition_offsets state.acks;
}

abbrev pub is_empty : List ℕ → Bool
is_empty [] = true
is_empty (x ∷ xs) = false

-- the ack of a participant: the last one starts the commit
unfoldable pub accept_ack :
    Ack → EpochState → CommitCoordinator → CommitCoordinator × List CommitRequest
accept_ack ack state c =
    let state' = take_ack ack state in
    (
      record c { epoch_map = insert ack.epoch state' c.epoch_map },
      if is_empty state'.participants
          then commit_epoch_offsets flush_ack ack.epoch state' ∷ []
          else [],
    )

unfoldable pub handle_flush_ack : Ack → CommitCoordinator → CommitCoordinator × List CommitRequest
handle_flush_ack ack c = elim (lookup ack.epoch c.epoch_map) [
  | none ↦ (c, [])
  | some state ↦
      if contains ack.worker_id state.participants then accept_ack ack state c else (c, [])
]

-- What the broker answers: an error, or an error code for each partition (0 for none).
pub data Response : Type 0 where
  request_failed : Response
  partition_codes : List ℕ → Response

unfoldable pub any_error : List ℕ → Bool
any_error [] = false
any_error (code ∷ codes) = if code == 0 then any_error codes else true

-- The result that the callback posts; none is posted when a partition has an error.
unfoldable pub on_response : CommitRequest → Response → Option CommitResult
on_response r request_failed =
    some (record { event = r.event; epoch = r.epoch; offsets = []; failed = true })
on_response r (partition_codes codes) =
    if any_error codes
    then none
    else some (record { event = r.event; epoch = r.epoch; offsets = r.offsets; failed = false })

-- What a worker's channel gets: nothing if it is full.
unfoldable pub broadcast : CommitResult → List Bool → List (Option Ack)
broadcast res [] = []
broadcast res (ready ∷ channels) =
    (if ready
      then some (record { epoch = res.epoch; worker_id = 0; partition_offsets = res.offsets })
      else none)
    ∷ broadcast res channels

-- `ready` is which of the workers' channels have room.
unfoldable pub post_commit_process :
    List Bool → CommitResult → CommitCoordinator → CommitCoordinator × List (Option Ack)
post_commit_process ready res c = (
  record c {
    last_committed_epoch = max res.epoch c.last_committed_epoch;
    epoch_map = delete res.epoch c.epoch_map;
  },
  elim res.event [ flush_ack ↦ broadcast res ready | check_epoch_timeouts ↦ [] ],
)

-- the requests of one epoch that may have expired
unfoldable pub expire : ℕ → ℕ → ℕ → EpochState → Bool × List CommitRequest
expire now timeout epoch state =
    if ltb (now - state.created_at) timeout then (false, []) else elim state.acks [
      | [] ↦ (true, [])
      | first ∷ rest ↦ (true, commit_epoch_offsets check_epoch_timeouts epoch state ∷ [])
    ]

-- The loop over the epochs that there were at its start.
unfoldable pub expire_all :
    ℕ → ℕ → Assoc ℕ EpochState → Assoc ℕ EpochState → Assoc ℕ EpochState × List CommitRequest
expire_all now timeout [] m = (m, [])
expire_all now timeout ((epoch, state) ∷ epochs) m =
    let (expired, requests) = expire now timeout epoch state in
    let (m', rest) = expire_all now timeout epochs (if expired then delete epoch m else m) in
    (m', requests ++ rest)

unfoldable pub check_epoch_timeouts_at :
    ℕ → CommitCoordinator → CommitCoordinator × List CommitRequest
check_epoch_timeouts_at now c =
    let (m, requests) = expire_all now c.epoch_timeout c.epoch_map c.epoch_map in
    (record c { epoch_map = m }, requests)
