-- ===== src/Orderbook/Dispatcher/Commit.antt =====
-- The way of a record from the dispatcher to a commit: channels, a worker's flush, and the coordinator.
use market_tick_aggregator.Prelude.{
  ℕ, ◌+◌, ◌≤◌, ◌<◌, ◌≡◌, refl, sym, ap, ◌∙◌, subst, Bool, true, List, [], ◌∷◌, Option, none, some,
  contains, is_some, nat_eq, arith, ◌==◌, Bool-cases, inl, inr, beq_eq, beq_refl, or_else, suc,
  zero, Eq,
}
use market_tick_aggregator.Prelude.Assoc.{Assoc, lookup, bind_value}
use market_tick_aggregator.Orderbook.OrderedTree.{PriceOrder, OrderedTree}
use market_tick_aggregator.Orderbook.Worker.{
  DispatchRecord, StoredSnapshot, OrderbookFlush, flush_book,
}
use market_tick_aggregator.Orderbook.Worker.Higher.{higher, only_at}
use market_tick_aggregator.Orderbook.Worker.Highest.{process_all, highest, flush_book-highest}
use market_tick_aggregator.Orderbook.Coordinator.{
  CommitCoordinator, Ack, CommitRequest, start_epoch, handle_flush_ack,
}
use market_tick_aggregator.Orderbook.Coordinator.Acks.{after_acks, first_ack}
use market_tick_aggregator.Orderbook.Coordinator.Minimum.{
  AtOrBelow, AtOrBelow-trans, next, offsets_in, smallest, smallest-AtOrBelow-lookup,
}
use market_tick_aggregator.Orderbook.Coordinator.Commit.{commit-first_ack}
use market_tick_aggregator.Orderbook.Dispatcher.{Arrival, room_at, participants_from}
use market_tick_aggregator.Orderbook.Dispatcher.Queue.{
  ahead_of, behind, Among, Rising, sent_to, ahead-behind,
}

-- no offset, or a lower one
abbrev Under : Option ℕ → ℕ → Type 0
Under none off = Unit {0}
Under (some m) off = m < off

higher-Under : (a b : Option ℕ) (off : ℕ) → Under a off → Under b off → Under (higher a b) off
higher-Under none b off h k = k
higher-Under (some m) none off h k = h
higher-Under (some m) (some n) off h k = omega arith

higher-is_some_right : (a b : Option ℕ) → is_some b ≡ true → is_some (higher a b) ≡ true
higher-is_some_right none b h = h
higher-is_some_right (some m) none h = refl
higher-is_some_right (some m) (some n) h = refl

higher-is_some_left : (m : ℕ) (b : Option ℕ) → is_some (higher (some m) b) ≡ true
higher-is_some_left m none = refl
higher-is_some_left m (some n) = refl

committed-Under :
    (low top : Option ℕ) (off : ℕ)
    → AtOrBelow low top
    → is_some top ≡ true
    → Under top off
    → (c : ℕ) × (next low ≡ some c) × (c ≤ off)
committed-Under low none off h some_top under = cc
committed-Under none (some m) off h some_top under = absurd h
committed-Under (some low) (some m) off h some_top under = (low + 1, refl, omega arith)

abbrev next_find : List (Option ℕ) → Option ℕ
next_find [] = none
next_find (found ∷ finds) = found

abbrev other_finds : List (Option ℕ) → List (Option ℕ)
other_finds [] = []
other_finds (found ∷ finds) = finds

participants_from-contains :
    (k j id : ℕ) (rooms : List Bool)
    → k + j ≡ id
    → room_at j rooms ≡ true
    → contains id (participants_from k rooms) ≡ true
unfolding participants_from
participants_from-contains k j id [] same h = cc
participants_from-contains k zero id (room ∷ rooms) same h = rw h (ground (arith, same))
participants_from-contains k (suc j) id (room ∷ rooms) same h =
    let rest = participants_from-contains (suc k) j id rooms (omega (arith, same)) h in
    elim (Bool-cases room) [ inl took ↦ rw took (ground (arith, rest)) | inr full ↦ rw full rest ]

module _ {P Q : Type 0} where
  -- The records that a worker processes, each with the entry that its lookup finds.
  unfoldable pub lookups :
      List (Option ℕ) → List (DispatchRecord P Q) → List (Option ℕ × DispatchRecord P Q)
  lookups finds [] = []
  lookups finds (rec ∷ recs) = (next_find finds, rec) ∷ lookups (other_finds finds) recs

module _ {P Q : Type 0} ⦃e : Eq P⦄ ⦃o : PriceOrder P⦄ (x : OrderedTree P Q)
    (is_removal : Q → Bool) where
  -- The offsets that a worker acks in a flush, once it has processed the records from its start.
  unfoldable pub acked_after :
      (List ℕ → StoredSnapshot P Q)
      → (P → P → P)
      → (OrderbookFlush x is_removal → Bool)
      → ℕ
      → List (Option ℕ × DispatchRecord P Q)
      → Option (Assoc ℕ ℕ)
  acked_after unmarshal minus marshals flush_depth updates =
      bind_value
        (process_all x is_removal unmarshal updates
          (record { buffer_key_buf = []; orderbook_state_map = [] }))
        (λ w. some (flush_book x is_removal minus marshals flush_depth w).2)

  only_at-Under :
      (p off : ℕ) (rec : DispatchRecord P Q)
      → (rec.partition ≡ p → rec.offset < off)
      → Under (only_at p rec.partition rec.offset) off
  only_at-Under p off rec h = elim (Bool-cases (rec.partition == p)) [
    | inl same ↦ rw same (h (beq_eq rec.partition p same))
    | inr other ↦ rw other tt
  ]

  highest-Under :
      (p off : ℕ) (finds : List (Option ℕ)) (recs : List (DispatchRecord P Q))
      → ((rec : DispatchRecord P Q) → Among rec recs → rec.partition ≡ p → rec.offset < off)
      → Under (highest x is_removal p (lookups finds recs)) off
  unfolding highest lookups
  highest-Under p off finds [] h = tt
  highest-Under p off finds (rec ∷ recs) h =
      higher-Under (only_at p rec.partition rec.offset)
        (highest x is_removal p (lookups (other_finds finds) recs)) off
        (only_at-Under p off rec (h rec (inl refl)))
        (highest-Under p off (other_finds finds) recs (λ r among. h r (inr among)))

  highest-is_some :
      (p : ℕ) (early : DispatchRecord P Q) (finds : List (Option ℕ))
      (recs : List (DispatchRecord P Q))
      → Among early recs
      → early.partition ≡ p
      → is_some (highest x is_removal p (lookups finds recs)) ≡ true
  unfolding highest lookups
  highest-is_some p early finds [] among same = absurd among
  highest-is_some p early finds (rec ∷ recs) among same = elim among [
    | inl here ↦
        rw
          (ap (λ (k : ℕ). k == p) (sym (ap (λ (r : DispatchRecord P Q). r.partition) here) ∙ same)
            ∙ beq_refl p)
          (higher-is_some_left rec.offset
            (highest x is_removal p (lookups (other_finds finds) recs)))
    | inr rest ↦
        higher-is_some_right (only_at p rec.partition rec.offset)
          (highest x is_removal p (lookups (other_finds finds) recs))
          (highest-is_some p early (other_finds finds) recs rest same)
  ]

  pub acked_after-highest :
      (unmarshal : List ℕ → StoredSnapshot P Q) (minus : P → P → P)
      (marshals : OrderbookFlush x is_removal → Bool) (flush_depth : ℕ)
      (updates : List (Option ℕ × DispatchRecord P Q))
      → (offs : Assoc ℕ ℕ) × (acked_after unmarshal minus marshals flush_depth updates ≡ some offs)
        × ((p : ℕ) → lookup p offs ≡ highest x is_removal p updates)
  unfolding acked_after
  acked_after-highest unmarshal minus marshals flush_depth updates =
      let (w, ran, tops) =
        flush_book-highest x is_removal unmarshal minus marshals flush_depth updates [] in
      rw ran (_, refl, tops)

  -- An epoch that commits asks, for the partition of a record that waits behind the epoch's flush
  -- in the channel of a participant, for an offset at or below the record's, so that a restart
  -- reads it again. This needs that the offsets of a partition rise as its records arrive, that the
  -- participant started with no states and no snapshots in Redis and had processed a record of the
  -- partition before the flush, and that the ack the coordinator took first from it is the one of
  -- that flush. It holds for any interleaving of records and flushes, full channels included, any
  -- lookups, and whatever acks arrived before.
  pub commit-never_passes :
      (unmarshal : List ℕ → StoredSnapshot P Q) (minus : P → P → P)
      (marshals : OrderbookFlush x is_removal → Bool) (flush_depth : ℕ) (finds : List (Option ℕ))
      (worker_count id epoch now : ℕ) (arrivals : List (Arrival P Q)) (rooms : List Bool)
      (early queued : DispatchRecord P Q) (c : CommitCoordinator) (older : List Ack) (ack : Ack)
      (r : CommitRequest)
      → Rising arrivals
      → Among early (ahead_of epoch (sent_to worker_count id arrivals))
      → Among queued (behind epoch (sent_to worker_count id arrivals))
      → early.partition ≡ queued.partition
      → room_at id rooms ≡ true
      → lookup epoch c.epoch_map ≡ none
      → ack.epoch ≡ epoch
      → (handle_flush_ack ack
          (after_acks (start_epoch now epoch (participants_from 0 rooms) c) older)).1
        ≡ r ∷ []
      → first_ack epoch id (ack ∷ older)
        ≡ acked_after unmarshal minus marshals flush_depth
            (lookups finds (ahead_of epoch (sent_to worker_count id arrivals)))
      → (off : ℕ) × (lookup queued.partition r.uncommitted ≡ some off) × (off ≤ queued.offset)
  commit-never_passes unmarshal minus marshals flush_depth finds n id epoch now arrivals rooms early
        queued c older ack r rising first second same has_room fresh acked commits sent =
      let recs = ahead_of epoch (sent_to n id arrivals) in
      let q = queued.partition in
      let (offs', flushed, tops) =
        acked_after-highest unmarshal minus marshals flush_depth (lookups finds recs) in
      let (same_epoch, (offs, got, low), asked) =
        commit-first_ack now epoch id (participants_from 0 rooms) c older ack r fresh acked commits
          (participants_from-contains 0 id id rooms (omega arith) has_room) in
      let all_under = highest-Under q queued.offset finds recs (λ rec among same'.
        ahead-behind n id epoch rec queued arrivals rising among second same') in
      let acked_top : lookup q offs ≡ highest x is_removal q (lookups finds recs) =
        ap (λ (a : Option (Assoc ℕ ℕ)). lookup q (or_else a [])) (sym got ∙ sent ∙ flushed)
        ∙ tops q in
      rw (asked q) (
        committed-Under (lookup q r.offsets) (highest x is_removal q (lookups finds recs))
          queued.offset
          (subst (AtOrBelow (lookup q r.offsets)) acked_top (
            AtOrBelow-trans (lookup q r.offsets) (smallest (offsets_in q offs)) (lookup q offs)
              (low q) (smallest-AtOrBelow-lookup q offs)))
          (highest-is_some q early finds recs first same) all_under)
