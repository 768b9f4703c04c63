-- ===== src/Orderbook/Coordinator/Expiry.antt =====
-- Epochs that time out, and epochs whose commit was answered.
use market_tick_aggregator.Prelude.{
  ℕ, ◌-◌, ◌≤◌, ◌≡◌, refl, sym, ap, ◌∙◌, Bool, true, false, not, List, [], ◌∷◌, Option, none, some,
  if◌then◌else◌, arith, contains, nat_eq, ◌==◌, Bool-cases, Option-cases, inl, inr, beq_eq,
  beq_refl, ltb,
}
use market_tick_aggregator.Prelude.Assoc.{Assoc, lookup, delete, lookup-delete, DistinctKeys, keys}
use market_tick_aggregator.Orderbook.Coordinator.{
  EpochState, CommitCoordinator, CommitRequest, CommitResult, Response, on_response,
  post_commit_process, expire, expire_all, any_error, request_failed, partition_codes,
  check_epoch_timeouts_at,
}

abbrev pub is_expired : ℕ → ℕ → EpochState → Bool
is_expired now timeout state = not (ltb (now - state.created_at) timeout)

-- What is left of an epoch.
abbrev pub unexpired : ℕ → ℕ → Option EpochState → Option EpochState
unexpired now timeout none = none
unexpired now timeout (some state) = if is_expired now timeout state then none else some state

expire-is_expired :
    (now timeout epoch : ℕ) (state : EpochState)
    → (expire now timeout epoch state).0 ≡ is_expired now timeout state
unfolding expire
expire-is_expired now timeout epoch state = by_acks state.acks refl
  where
    by_acks :
        (acks : Assoc ℕ (Assoc ℕ ℕ))
        → state.acks ≡ acks
        → (expire now timeout epoch state).0 ≡ is_expired now timeout state
    by_acks [] e = rw (e, expire) (ground arith)
    by_acks (a ∷ acks) e = rw (e, expire) (ground arith)

keys-eq-false : (e : ℕ) (m : Assoc ℕ EpochState) → lookup e m ≡ none → contains e (keys m) ≡ false
unfolding lookup
keys-eq-false e [] h = refl
keys-eq-false e ((epoch, state) ∷ m) h = ground (arith, keys-eq-false e m)

absent-expire_all :
    (now timeout e : ℕ) (epochs m : Assoc ℕ EpochState)
    → contains e (keys epochs) ≡ false
    → lookup e (expire_all now timeout epochs m).0 ≡ lookup e m
unfolding expire_all
absent-expire_all now timeout e [] m h = refl
absent-expire_all now timeout e ((epoch, state) ∷ epochs) m h =
    absent-expire_all now timeout e epochs _ (ground (arith, h))
    ∙ step (expire now timeout epoch state).0
  where
    step : (b : Bool) → lookup e (if b then delete epoch m else m) ≡ lookup e m
    step true = lookup-delete epoch e m ∙ ground (arith, h)
    step false = refl

present-expire_all :
    (now timeout e : ℕ) (epochs m : Assoc ℕ EpochState) (state : EpochState)
    → DistinctKeys epochs
    → lookup e epochs ≡ some state
    → lookup e (expire_all now timeout epochs m).0
      ≡ (if is_expired now timeout state then none else lookup e m)
unfolding expire_all lookup
present-expire_all now timeout e [] m state d h = cc
present-expire_all now timeout e ((epoch, first) ∷ epochs) m state d h =
    elim (Bool-cases (epoch == e)) [
      | inl same ↦
          let is_first : first ≡ state = cc (rw same at h) in
          let gone : contains e (keys epochs) ≡ false = rw (← beq_eq epoch e same) d.0 in
          absent-expire_all now timeout e epochs _ gone
          ∙ rw (expire-is_expired now timeout epoch first, is_first)
              (at_first (is_expired now timeout state) same)
      | inr other ↦
          present-expire_all now timeout e epochs _ state d.1 (rw other at h)
          ∙ ap (λ (o : Option EpochState). if is_expired now timeout state then none else o)
              (at_other (expire now timeout epoch first).0 other)
    ]
  where
    at_first :
        (b : Bool)
        → (epoch == e) ≡ true
        → lookup e (if b then delete epoch m else m) ≡ (if b then none else lookup e m)
    at_first true same = lookup-delete epoch e m ∙ rw same
    at_first false same = refl

    at_other :
        (b : Bool) → (epoch == e) ≡ false → lookup e (if b then delete epoch m else m) ≡ lookup e m
    at_other true other = lookup-delete epoch e m ∙ rw other
    at_other false other = refl

-- A timeout check drops exactly the epochs that have reached their timeout, whether or not a worker
-- acked them, and leaves the state of every other epoch as it is.
pub lookup-check_epoch_timeouts :
    (now e : ℕ) (c : CommitCoordinator)
    → DistinctKeys c.epoch_map
    → lookup e (check_epoch_timeouts_at now c).0.epoch_map
      ≡ unexpired now c.epoch_timeout (lookup e c.epoch_map)
unfolding check_epoch_timeouts_at
lookup-check_epoch_timeouts now e c d = elim (Option-cases (lookup e c.epoch_map)) [
  | inl absent ↦
      absent-expire_all now c.epoch_timeout e c.epoch_map c.epoch_map
        (keys-eq-false e c.epoch_map absent)
      ∙ rw absent
  | inr (state, found) ↦
      present-expire_all now c.epoch_timeout e c.epoch_map c.epoch_map state d found ∙ rw found
]

abbrev epoch_of : ℕ → Option CommitResult → ℕ
epoch_of d none = d
epoch_of d (some res) = res.epoch

on_response-epoch :
    (r : CommitRequest) (answer : Response) (res : CommitResult)
    → on_response r answer ≡ some res
    → res.epoch ≡ r.epoch
unfolding on_response
on_response-epoch r request_failed res h = ap (epoch_of r.epoch) (sym h)
on_response-epoch r (partition_codes codes) res h = elim (Bool-cases (any_error codes)) [
  | inl bad ↦ cc (rw bad at h)
  | inr good ↦ ap (epoch_of r.epoch) (sym (rw good at h))
]

-- Every answer for which the callback posts a result ends the epoch: its state is dropped, so that
-- later acks find none, and it counts as committed even if the broker refused the commit.
pub on_response-ends_epoch :
    (ready : List Bool) (r : CommitRequest) (answer : Response) (res : CommitResult)
    (c : CommitCoordinator)
    → on_response r answer ≡ some res
    → (res.epoch ≡ r.epoch)
      × (lookup r.epoch (post_commit_process ready res c).0.epoch_map ≡ none)
      × (r.epoch ≤ (post_commit_process ready res c).0.last_committed_epoch)
unfolding on_response post_commit_process
on_response-ends_epoch ready r answer res c h =
    let same = on_response-epoch r answer res h in
    (
      same,
      lookup-delete res.epoch r.epoch c.epoch_map ∙ rw (← same, beq_refl res.epoch),
      omega (arith, same),
    )
