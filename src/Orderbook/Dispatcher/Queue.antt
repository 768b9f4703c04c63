-- ===== src/Orderbook/Dispatcher/Queue.antt =====
-- The records of a channel ahead of a flush and behind it: their offsets rise as they arrived.
use market_tick_aggregator.Prelude.{
  ℕ, ◌<◌, ◌≡◌, refl, sym, ap, ◌∙◌, Bool, true, false, List, [], ◌∷◌, ◌++◌, if◌then◌else◌, ◌==◌,
  ◌&&◌, Bool-cases, inl, inr, ◌⊎◌, nat_eq,
}
use mathlib.Core.List.{append_assoc, append-nil}
use market_tick_aggregator.Orderbook.Worker.{DispatchRecord}
use market_tick_aggregator.Orderbook.Dispatcher.{
  Message, process_event, flush_event, Arrival, record_arrived, epoch_tick, Channels, room_at,
  worker_of, run_arrivals, arrive, dispatch, send_flush, offer, no_messages,
}

module _ {P Q : Type 0} where
  unfoldable pub records_of : List (Message P Q) → List (DispatchRecord P Q)
  records_of [] = []
  records_of (process_event rec ∷ msgs) = rec ∷ records_of msgs
  records_of (flush_event epoch ∷ msgs) = records_of msgs

  -- The records ahead of the flush of an epoch, and those behind it.
  unfoldable pub ahead_of : ℕ → List (Message P Q) → List (DispatchRecord P Q)
  ahead_of e [] = []
  ahead_of e (process_event rec ∷ msgs) = rec ∷ ahead_of e msgs
  ahead_of e (flush_event epoch ∷ msgs) =
      let rest = ahead_of e msgs in if epoch == e then [] else rest

  unfoldable pub behind : ℕ → List (Message P Q) → List (DispatchRecord P Q)
  behind e [] = []
  behind e (process_event rec ∷ msgs) = behind e msgs
  behind e (flush_event epoch ∷ msgs) =
      let rest = behind e msgs in if epoch == e then records_of msgs else rest

  abbrev pub Among : DispatchRecord P Q → List (DispatchRecord P Q) → Type 0
  Among rec [] = ⊥
  Among rec (r ∷ recs) = (rec ≡ r) ⊎ Among rec recs

  -- Records of a partition that arrive later have higher offsets.
  abbrev pub Below : DispatchRecord P Q → List (Arrival P Q) → Type 0
  Below rec [] = Unit {0}
  Below rec (record_arrived room later ∷ arrivals) =
      (rec.partition ≡ later.partition → rec.offset < later.offset) × Below rec arrivals
  Below rec (epoch_tick epoch rooms ∷ arrivals) = Below rec arrivals

  abbrev pub Rising : List (Arrival P Q) → Type 0
  Rising [] = Unit {0}
  Rising (record_arrived room rec ∷ arrivals) = Below rec arrivals × Rising arrivals
  Rising (epoch_tick epoch rooms ∷ arrivals) = Rising arrivals

  -- what one channel is given
  unfoldable pub given : ℕ → ℕ → List (Arrival P Q) → List (Message P Q)
  given n i [] = []
  given n i (record_arrived room rec ∷ arrivals) =
      let rest = given n i arrivals in
      if room && (worker_of n rec.exchange rec.symbol == i) then process_event rec ∷ rest else rest
  given n i (epoch_tick epoch rooms ∷ arrivals) =
      let rest = given n i arrivals in if room_at i rooms then flush_event epoch ∷ rest else rest

  offer_then :
      (room : Bool) (msg : Message P Q) (channel rest : List (Message P Q))
      → offer room msg channel ++ rest ≡ channel ++ (if room then msg ∷ rest else rest)
  offer_then true msg channel rest = append_assoc channel (msg ∷ []) rest
  offer_then false msg channel rest = refl

  run_arrivals-given :
      (n i : ℕ) (arrivals : List (Arrival P Q)) (channels : Channels P Q)
      → run_arrivals n arrivals channels i ≡ channels i ++ given n i arrivals
  unfolding run_arrivals given arrive dispatch send_flush
  run_arrivals-given n i [] channels = sym (append-nil (channels i))
  run_arrivals-given n i (record_arrived room rec ∷ arrivals) channels =
      run_arrivals-given n i arrivals (dispatch n room rec channels)
      ∙ offer_then (room && (worker_of n rec.exchange rec.symbol == i)) (process_event rec)
          (channels i) (given n i arrivals)
  run_arrivals-given n i (epoch_tick epoch rooms ∷ arrivals) channels =
      run_arrivals-given n i arrivals (send_flush epoch rooms channels)
      ∙ offer_then (room_at i rooms) (flush_event epoch) (channels i) (given n i arrivals)

  -- all that a worker's channel is given, from the start
  abbrev pub sent_to : ℕ → ℕ → List (Arrival P Q) → List (Message P Q)
  sent_to n i arrivals = run_arrivals n arrivals no_messages i

  -- behind is part of the channel
  behind-records :
      (e : ℕ) (rec : DispatchRecord P Q) (msgs : List (Message P Q))
      → Among rec (behind e msgs)
      → Among rec (records_of msgs)
  unfolding behind records_of
  behind-records e rec [] h = h
  behind-records e rec (process_event r ∷ msgs) h = inr (behind-records e rec msgs h)
  behind-records e rec (flush_event epoch ∷ msgs) h = elim (Bool-cases (epoch == e)) [
    | inl here ↦ rw here at h
    | inr other ↦ behind-records e rec msgs (rw other at h)
  ]

  given-Below :
      (n i : ℕ) (rec later : DispatchRecord P Q) (arrivals : List (Arrival P Q))
      → Below rec arrivals
      → Among later (records_of (given n i arrivals))
      → rec.partition ≡ later.partition
      → rec.offset < later.offset
  unfolding given records_of
  given-Below n i rec later [] h among same = absurd among
  given-Below n i rec later (record_arrived room r ∷ arrivals) h among same =
      elim (Bool-cases (room && (worker_of n r.exchange r.symbol == i))) [
        | inl sent ↦ elim (rw sent at among) [
          | inl here ↦
              rw (ap (λ (r : DispatchRecord P Q). r.offset) here)
                (h.0 (same ∙ ap (λ (r : DispatchRecord P Q). r.partition) here))
          | inr rest ↦ given-Below n i rec later arrivals h.1 rest same
        ]
        | inr not_sent ↦ given-Below n i rec later arrivals h.1 (rw not_sent at among) same
      ]
  given-Below n i rec later (epoch_tick epoch rooms ∷ arrivals) h among same =
      elim (Bool-cases (room_at i rooms)) [
        | inl sent ↦ given-Below n i rec later arrivals h (rw sent at among) same
        | inr not_sent ↦ given-Below n i rec later arrivals h (rw not_sent at among) same
      ]

  given-ahead_behind :
      (n i e : ℕ) (early queued : DispatchRecord P Q) (arrivals : List (Arrival P Q))
      → Rising arrivals
      → Among early (ahead_of e (given n i arrivals))
      → Among queued (behind e (given n i arrivals))
      → early.partition ≡ queued.partition
      → early.offset < queued.offset
  unfolding given ahead_of behind
  given-ahead_behind n i e early queued [] h first second same = absurd first
  given-ahead_behind n i e early queued (record_arrived room r ∷ arrivals) h first second same =
      elim (Bool-cases (room && (worker_of n r.exchange r.symbol == i))) [
        | inl sent ↦ elim (rw sent at first) [
          | inl here ↦ rw (ap (λ (r : DispatchRecord P Q). r.offset) here) (
              given-Below n i r queued arrivals h.0
                (behind-records e queued (given n i arrivals) (rw sent at second))
                (sym (ap (λ (r : DispatchRecord P Q). r.partition) here) ∙ same))
          | inr rest ↦
              given-ahead_behind n i e early queued arrivals h.1 rest (rw sent at second) same
        ]
        | inr not_sent ↦
            given-ahead_behind n i e early queued arrivals h.1 (rw not_sent at first)
              (rw not_sent at second) same
      ]
  given-ahead_behind n i e early queued (epoch_tick epoch rooms ∷ arrivals) h first second same =
      elim (Bool-cases (room_at i rooms)) [
        | inl sent ↦ elim (Bool-cases (epoch == e)) [
          | inl here ↦ absurd (rw (sent, here) at first)
          | inr other ↦
              given-ahead_behind n i e early queued arrivals h (rw (sent, other) at first)
                (rw (sent, other) at second) same
        ]
        | inr not_sent ↦
            given-ahead_behind n i e early queued arrivals h (rw not_sent at first)
              (rw not_sent at second) same
      ]

  -- Of one partition, what is behind a flush in a channel has higher offsets than what is ahead of it.
  pub ahead-behind :
      (n i e : ℕ) (early queued : DispatchRecord P Q) (arrivals : List (Arrival P Q))
      → Rising arrivals
      → Among early (ahead_of e (sent_to n i arrivals))
      → Among queued (behind e (sent_to n i arrivals))
      → early.partition ≡ queued.partition
      → early.offset < queued.offset
  ahead-behind n i e early queued arrivals h first second same =
      let all = run_arrivals-given n i arrivals no_messages in
      given-ahead_behind n i e early queued arrivals h (rw all at first) (rw all at second) same
