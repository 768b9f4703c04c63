-- ===== src/Orderbook/Coordinator/Acks.antt =====
-- The acks of one flush epoch, in any order, with repeats, strangers and other epochs among them.
use market_tick_aggregator.Prelude.{
  ℕ, ◌≡◌, ap, ◌∙◌, true, false, not, ◌&&◌, List, [], ◌∷◌, Option, none, some, if◌then◌else◌, arith,
  contains, nat_eq, ◌==◌, Bool-cases, Option-cases, inl, inr, beq_eq, beq_refl, is_some,
}
use market_tick_aggregator.Prelude.Assoc.{Assoc, lookup, lookup-insert}
use market_tick_aggregator.Orderbook.Coordinator.{
  EpochState, CommitCoordinator, Ack, CommitRequest, start_epoch, remove, take_ack, accept_ack,
  handle_flush_ack,
}

-- The coordinator after some acks, the newest first.
abbrev pub after_acks : CommitCoordinator → List Ack → CommitCoordinator
after_acks c [] = c
after_acks c (ack ∷ older) = (handle_flush_ack ack (after_acks c older)).0

-- The offsets that a worker acked first for an epoch; the newest ack stands first in the list.
unfoldable pub first_ack : ℕ → ℕ → List Ack → Option (Assoc ℕ ℕ)
first_ack e w [] = none
first_ack e w (ack ∷ older) = elim (first_ack e w older) [
  | none ↦ if (ack.epoch == e) && (ack.worker_id == w) then some ack.partition_offsets else none
  | some offs ↦ some offs
]

pub contains-remove :
    (w x : ℕ) (xs : List ℕ) → contains w (remove x xs) ≡ (not (x == w) && contains w xs)
unfolding remove
contains-remove w x [] = ground arith
contains-remove w x (y ∷ ys) = ground (arith, contains-remove w x ys)

pub handle_taken :
    (ack : Ack) (c : CommitCoordinator) (state : EpochState)
    → lookup ack.epoch c.epoch_map ≡ some state
    → contains ack.worker_id state.participants ≡ true
    → handle_flush_ack ack c ≡ accept_ack ack state c
unfolding handle_flush_ack
handle_taken ack c state found member = rw (found, handle_flush_ack) (rw member)

pub handle_refused :
    (ack : Ack) (c : CommitCoordinator) (state : EpochState)
    → lookup ack.epoch c.epoch_map ≡ some state
    → contains ack.worker_id state.participants ≡ false
    → handle_flush_ack ack c ≡ (c, [])
unfolding handle_flush_ack
handle_refused ack c state found stranger = rw (found, handle_flush_ack) (rw stranger)

module _ (e : ℕ) (ps : List ℕ) where
  -- What the state of an epoch with participants `ps` has taken from the acks.
  pub record Tracks (acks : List Ack) (state : EpochState) : Type 0 where
    pub waiting :
        (w : ℕ)
        → contains w state.participants ≡ (contains w ps && not (is_some (first_ack e w acks)))
    pub taken : (w : ℕ) → lookup w state.acks ≡ (if contains w ps then first_ack e w acks else none)

  first_ack-skip :
      (ack : Ack) (acks : List Ack) (w : ℕ)
      → ((ack.epoch == e) && (ack.worker_id == w)) ≡ false
      → first_ack e w (ack ∷ acks) ≡ first_ack e w acks
  unfolding first_ack
  first_ack-skip ack acks w h = ground (arith, h)

  Tracks-same :
      (ack : Ack) (acks : List Ack) (state : EpochState)
      → ((w : ℕ) → contains w ps ≡ true → first_ack e w (ack ∷ acks) ≡ first_ack e w acks)
      → Tracks acks state
      → Tracks (ack ∷ acks) state
  Tracks-same ack acks state same t = record {
    waiting = λ w. ground (arith, t.waiting w, same w);
    taken = λ w. ground (arith, t.taken w, same w);
  }

  pub Tracks-take :
      (ack : Ack) (acks : List Ack) (state : EpochState)
      → (ack.epoch == e) ≡ true
      → contains ack.worker_id state.participants ≡ true
      → Tracks acks state
      → Tracks (ack ∷ acks) (take_ack ack state)
  unfolding take_ack first_ack
  Tracks-take ack acks state same member t = record {
    waiting = λ w. ground (
      arith,
      contains-remove w ack.worker_id state.participants,
      t.waiting w,
      t.waiting ack.worker_id,
      beq_eq ack.worker_id w,
    );
    taken = λ w. ground (
      arith,
      lookup-insert ack.worker_id w ack.partition_offsets state.acks,
      t.taken w,
      t.waiting ack.worker_id,
      beq_eq ack.worker_id w,
    );
  }

  -- An ack that is not taken: it is for another epoch, or from a worker that need not ack any more.
  Tracks-skip :
      (ack : Ack) (acks : List Ack) (state : EpochState)
      → ((ack.epoch == e) && contains ack.worker_id state.participants) ≡ false
      → Tracks acks state
      → Tracks (ack ∷ acks) state
  unfolding first_ack
  Tracks-skip ack acks state h t =
      Tracks-same ack acks state
        (λ w member. ground (arith, h, member, t.waiting w, beq_eq ack.worker_id w)) t

  abbrev Tracked : List Ack → CommitCoordinator → Type 0
  Tracked acks c = (state : EpochState) × (lookup e c.epoch_map ≡ some state) × Tracks acks state

  handle_other :
      (ack : Ack) (c : CommitCoordinator)
      → (ack.epoch == e) ≡ false
      → lookup e (handle_flush_ack ack c).0.epoch_map ≡ lookup e c.epoch_map
  unfolding handle_flush_ack accept_ack
  handle_other ack c other = elim (Option-cases (lookup ack.epoch c.epoch_map)) [
    | inl absent ↦ rw (absent, handle_flush_ack)
    | inr (state, found) ↦ elim (Bool-cases (contains ack.worker_id state.participants)) [
      | inl member ↦
          rw (found, handle_flush_ack)
            (rw (member, accept_ack) (lookup-insert ack.epoch e _ c.epoch_map ∙ rw other))
      | inr stranger ↦ rw (found, handle_flush_ack) (rw stranger)
    ]
  ]

  handle-Tracked :
      (ack : Ack) (acks : List Ack) (c : CommitCoordinator)
      → Tracked acks c
      → Tracked (ack ∷ acks) (handle_flush_ack ack c).0
  unfolding accept_ack
  handle-Tracked ack acks c (state, found, t) = elim (Bool-cases (ack.epoch == e)) [
    | inr other ↦ (state, handle_other ack c other ∙ found, Tracks-skip ack acks state (rw other) t)
    | inl same ↦
        let here : lookup ack.epoch c.epoch_map ≡ some state =
          ap (λ (k : ℕ). lookup k c.epoch_map) (beq_eq ack.epoch e same) ∙ found in
        elim (Bool-cases (contains ack.worker_id state.participants)) [
          | inl member ↦ (
            take_ack ack state,
            ap (λ (o : CommitCoordinator × List CommitRequest). lookup e o.0.epoch_map)
                  (handle_taken ack c state here member)
                ∙ lookup-insert ack.epoch e (take_ack ack state) c.epoch_map
                ∙ rw same,
            Tracks-take ack acks state same member t,
          )
          | inr stranger ↦ (
            state,
            ap (λ (o : CommitCoordinator × List CommitRequest). lookup e o.0.epoch_map)
                  (handle_refused ack c state here stranger)
                ∙ found,
            Tracks-skip ack acks state (rw (same, stranger)) t,
          )
        ]
  ]

  -- A new epoch, and the acks that came since.
  pub after_acks-Tracked :
      (now : ℕ) (c : CommitCoordinator) (acks : List Ack)
      → lookup e c.epoch_map ≡ none
      → Tracked acks (after_acks (start_epoch now e ps c) acks)
  unfolding start_epoch first_ack lookup
  after_acks-Tracked now c [] fresh = (
    record { created_at = now; participants = ps; acks = [] },
    rw (fresh, start_epoch) (lookup-insert e e _ c.epoch_map ∙ rw (beq_refl e)),
    record { waiting = λ w. ground arith; taken = λ w. ground arith },
  )
  after_acks-Tracked now c (ack ∷ acks) fresh =
      handle-Tracked ack acks _ (after_acks-Tracked now c acks fresh)
