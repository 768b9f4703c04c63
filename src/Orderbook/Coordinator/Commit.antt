-- ===== src/Orderbook/Coordinator/Commit.antt =====
-- The commit that the last ack of an epoch starts.
use market_tick_aggregator.Prelude.{
  ℕ, ◌≡◌, refl, sym, ap, ◌∙◌, true, false, List, [], ◌∷◌, Option, none, some, arith, contains,
  nat_eq, Bool-cases, Option-cases, inl, inr, beq_refl, is_some,
}
use market_tick_aggregator.Prelude.Assoc.{Assoc, lookup}
use market_tick_aggregator.Orderbook.Coordinator.{
  EpochState, CommitCoordinator, Ack, CommitRequest, flush_ack, start_epoch, min_offsets,
  commit_epoch_offsets, take_ack, is_empty, accept_ack, handle_flush_ack,
}
use market_tick_aggregator.Orderbook.Coordinator.Minimum.{
  offsets_in, smallest, lookup-next_offsets, next, AtOrBelow, min_offsets-AtOrBelow,
}
use market_tick_aggregator.Orderbook.Coordinator.Acks.{
  after_acks, first_ack, handle_taken, handle_refused, Tracks, Tracks-take, after_acks-Tracked,
}

is_empty-contains : (w : ℕ) (xs : List ℕ) → is_empty xs ≡ true → contains w xs ≡ false
is_empty-contains w [] h = refl
is_empty-contains w (x ∷ xs) h = cc

contains-is_empty : (xs : List ℕ) → ((w : ℕ) → contains w xs ≡ false) → is_empty xs ≡ true
contains-is_empty [] h = refl
contains-is_empty (x ∷ xs) h = cc (h x, beq_refl x)

-- The only request that an ack can cause: the commit of its epoch, once nobody is waited for.
handle-eq-request :
    (ack : Ack) (c : CommitCoordinator) (state : EpochState) (r : CommitRequest)
    → lookup ack.epoch c.epoch_map ≡ some state
    → (handle_flush_ack ack c).1 ≡ r ∷ []
    → (contains ack.worker_id state.participants ≡ true)
      × (is_empty (take_ack ack state).participants ≡ true)
      × (commit_epoch_offsets flush_ack ack.epoch (take_ack ack state) ≡ r)
unfolding accept_ack
handle-eq-request ack c state r found h =
    elim (Bool-cases (contains ack.worker_id state.participants)) [
      | inr stranger ↦ cc (
        h,
        ap (λ (o : CommitCoordinator × List CommitRequest). o.1)
            (handle_refused ack c state found stranger),
      )
      | inl member ↦
          let taken : (accept_ack ack state c).1 ≡ r ∷ [] =
            sym (
              ap (λ (o : CommitCoordinator × List CommitRequest). o.1)
                (handle_taken ack c state found member))
            ∙ h in
          elim (Bool-cases (is_empty (take_ack ack state).participants)) [
            | inl done ↦ (member, done, cc (rw done at taken))
            | inr waiting ↦ cc (rw waiting at taken)
          ]
    ]

-- Removing a participant that was the last one waited for leaves nobody.
taken-first_ack :
    (e w : ℕ) (ps : List ℕ) (acks : List Ack) (state : EpochState)
    → Tracks e ps acks state
    → is_empty state.participants ≡ true
    → contains w ps ≡ true
    → (offs : Assoc ℕ ℕ) × (first_ack e w acks ≡ some offs) × (lookup w state.acks ≡ some offs)
taken-first_ack e w ps acks state t done member = elim (Option-cases (first_ack e w acks)) [
  | inl none_yet ↦ cc (
    is_empty-contains w state.participants done,
    t.waiting w,
    member,
    ap (λ (o : Option (Assoc ℕ ℕ)). is_some o) none_yet,
  )
  | inr (offs, acked) ↦ (offs, acked, t.taken w ∙ rw (member, acked))
]

-- An ack makes the coordinator commit a new epoch only when every worker that the epoch was started
-- with has acked it, whatever acks arrived before, in any order, repeated, late or from strangers.
-- The commit then is for that epoch, holds no partition above the offset that any of these workers
-- acked first for it, and asks the broker for the offset after.
pub commit-first_ack :
    (now e w : ℕ) (ps : List ℕ) (c : CommitCoordinator) (older : List Ack) (ack : Ack)
    (r : CommitRequest)
    → lookup e c.epoch_map ≡ none
    → ack.epoch ≡ e
    → (handle_flush_ack ack (after_acks (start_epoch now e ps c) older)).1 ≡ r ∷ []
    → contains w ps ≡ true
    → (r.epoch ≡ e)
      × ((offs : Assoc ℕ ℕ) × (first_ack e w (ack ∷ older) ≡ some offs)
          × ((q : ℕ) → AtOrBelow (lookup q r.offsets) (smallest (offsets_in q offs))))
      × ((q : ℕ) → lookup q r.uncommitted ≡ next (lookup q r.offsets))
unfolding commit_epoch_offsets
commit-first_ack now e w ps c older ack r fresh same h member =
    let (state, found, t) = after_acks-Tracked e ps now c older fresh in
    let here =
      ap (λ (k : ℕ). lookup k (after_acks (start_epoch now e ps c) older).epoch_map) same ∙ found in
    let (waited, done, made) =
      handle-eq-request ack (after_acks (start_epoch now e ps c) older) state r here h in
    let t' = Tracks-take e ps ack older state (rw same (beq_refl e)) waited t in
    let (offs, acked, kept) =
      taken-first_ack e w ps (ack ∷ older) (take_ack ack state) t' done member in
    (
      ap (λ (q : CommitRequest). q.epoch) (sym made) ∙ same,
      (
        offs,
        acked,
        λ q. rw (← made) (min_offsets-AtOrBelow q w (take_ack ack state).acks offs kept),
      ),
      λ q. rw (← made) (lookup-next_offsets q (min_offsets (take_ack ack state).acks [])),
    )

-- For a new epoch, the first ack of a participant that leaves no participant without an ack makes the
-- coordinator commit.
pub last_ack-commits :
    (now e : ℕ) (ps : List ℕ) (c : CommitCoordinator) (older : List Ack) (ack : Ack)
    → lookup e c.epoch_map ≡ none
    → ack.epoch ≡ e
    → contains ack.worker_id ps ≡ true
    → first_ack e ack.worker_id older ≡ none
    → ((w : ℕ) → contains w ps ≡ true → is_some (first_ack e w (ack ∷ older)) ≡ true)
    → (r : CommitRequest) × ((handle_flush_ack ack (after_acks (start_epoch now e ps c) older)).1
        ≡ r ∷ [])
unfolding accept_ack
last_ack-commits now e ps c older ack fresh same member first all =
    let (state, found, t) = after_acks-Tracked e ps now c older fresh in
    let here =
      ap (λ (k : ℕ). lookup k (after_acks (start_epoch now e ps c) older).epoch_map) same ∙ found in
    let waited : contains ack.worker_id state.participants ≡ true =
      t.waiting ack.worker_id ∙ rw (member, first) in
    let t' = Tracks-take e ps ack older state (rw same (beq_refl e)) waited t in
    let done : is_empty (take_ack ack state).participants ≡ true =
      contains-is_empty (take_ack ack state).participants
        (λ w. ground (arith, t'.waiting w, all w)) in
    (
      commit_epoch_offsets flush_ack ack.epoch (take_ack ack state),
      ap (λ (o : CommitCoordinator × List CommitRequest). o.1)
            (handle_taken ack _ state here waited)
          ∙ rw done,
    )
