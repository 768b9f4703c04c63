-- ===== src/Normalizer/Orderer/Time/Flush.antt =====
-- A flush of the time buffer is the parked messages in a stable order of their times.
use market_tick_aggregator.Prelude.{
  ℕ, suc, ◌≤◌, ◌≡◌, refl, sym, ap, ◌∙◌, false, List, [], ◌∷◌, ◌++◌, map, if◌then◌else◌, contains,
  ◌==◌, nat_eq, is_some, arith, Bool-cases, Option-cases, inl, inr, beq_eq, contains-append,
  if_split,
}
use mathlib.Core.List.{append-nil, append_assoc}
use market_tick_aggregator.Prelude.Assoc.{Assoc, lookup, lookup-insert}
use market_tick_aggregator.Prelude.Sort.{
  sort, sort-contains, AscendingFrom, StrictFrom, Distinct, sort-StrictFrom, StrictFrom-Distinct,
  Distinct-append_last,
}
use market_tick_aggregator.Normalizer.State.{PipelineMessage, SymbolState}
use market_tick_aggregator.Normalizer.Orderer.Time.{
  init_ts_orderer_state, messages_at, park_ts, ts_order, gather, prepare_ts_buffer_flush,
}

-- The messages of one time, in their order.
unfoldable pub at_time : ℕ → List PipelineMessage → List PipelineMessage
at_time t [] = []
at_time t (m ∷ ms) = let rest = at_time t ms in if m.ts == t then m ∷ rest else rest

at_time-append :
    (t : ℕ) (xs ys : List PipelineMessage) → at_time t (xs ++ ys) ≡ at_time t xs ++ at_time t ys
unfolding at_time
at_time-append t [] ys = refl
at_time-append t (x ∷ xs) ys = ground (arith, at_time-append t xs ys)

at_time-one :
    (t : ℕ) (m : PipelineMessage) → at_time t (m ∷ []) ≡ (if m.ts == t then m ∷ [] else [])
unfolding at_time
at_time-one t m = refl

at_time_again :
    (t u : ℕ) (ms : List PipelineMessage)
    → at_time t (at_time u ms) ≡ (if u == t then at_time u ms else [])
unfolding at_time
at_time_again t u [] = ground arith
at_time_again t u (m ∷ ms) =
    ground (arith, at_time_again t u ms, beq_eq m.ts u, beq_eq m.ts t, beq_eq u t)

-- The buffer holds the messages `ms`, which were parked in this order.
pub record Parked (ms : List PipelineMessage) (s : SymbolState) : Type 0 where
  pub slots : (t : ℕ) → messages_at s.buffer_time_map t ≡ at_time t ms
  pub present : (t : ℕ) → contains t s.buffer_time ≡ is_some (lookup t s.buffer_time_map)
  pub distinct : Distinct s.buffer_time

init-Parked : (s : SymbolState) (msg : PipelineMessage) → Parked [] (init_ts_orderer_state s msg)
unfolding init_ts_orderer_state lookup at_time
init-Parked s msg = record { slots = λ t. refl; present = λ t. refl; distinct = tt }

module _ (msg : PipelineMessage) (ms : List PipelineMessage) (s : SymbolState)
    (b : Parked ms s) where
  messages_at-park_ts :
      (t : ℕ) → messages_at (park_ts msg s).buffer_time_map t ≡ at_time t (ms ++ (msg ∷ []))
  unfolding park_ts
  messages_at-park_ts t = elim (Bool-cases (msg.ts == t)) [
    | inl same ↦
        rw (lookup-insert, at_time-append t ms (msg ∷ []), at_time-one t msg, same)
          (ap (λ (l : List PipelineMessage). l ++ (msg ∷ []))
            (ap (messages_at s.buffer_time_map) (beq_eq msg.ts t same) ∙ b.slots t))
    | inr other ↦
        rw (lookup-insert, at_time-append t ms (msg ∷ []), at_time-one t msg, other)
          (b.slots t ∙ sym (append-nil (at_time t ms)))
  ]

  contains-park_ts :
      (t : ℕ)
      → contains t (park_ts msg s).buffer_time ≡ is_some (lookup t (park_ts msg s).buffer_time_map)
  unfolding park_ts
  contains-park_ts t = ground (
    arith,
    b.present t,
    b.present msg.ts,
    contains-append t s.buffer_time (msg.ts ∷ []),
    lookup-insert msg.ts t (messages_at s.buffer_time_map msg.ts ++ (msg ∷ [])) s.buffer_time_map,
    beq_eq msg.ts t,
  )

  park_ts-Distinct : Distinct (park_ts msg s).buffer_time
  unfolding park_ts
  park_ts-Distinct =
      if_split Distinct (is_some (lookup msg.ts s.buffer_time_map)) (λ old. b.distinct)
        (λ new. Distinct-append_last msg.ts s.buffer_time (b.present msg.ts ∙ new) b.distinct)

  order-Parked : Parked (ms ++ (msg ∷ [])) (ts_order msg s).state
  unfolding ts_order
  order-Parked = record {
    slots = messages_at-park_ts;
    present = contains-park_ts;
    distinct = park_ts-Distinct;
  }

-- What a flush hands out for one time.
gather-at_time :
    (ms : List PipelineMessage) (m : Assoc ℕ (List PipelineMessage)) (t : ℕ) (tss : List ℕ)
    → ((u : ℕ) → messages_at m u ≡ at_time u ms)
    → Distinct tss
    → at_time t (gather m tss) ≡ (if contains t tss then at_time t ms else [])
unfolding gather
gather-at_time ms m t [] slots d = unfold at_time in refl
gather-at_time ms m t (u ∷ tss) slots d = elim (Bool-cases (u == t)) [
  | inl same ↦
      let gone : contains t tss ≡ false = ground (arith, d, beq_eq u t) in
      rw
        (
          slots u,
          at_time-append t (at_time u ms) (gather m tss),
          at_time_again t u ms,
          gather-at_time ms m t tss slots d.1,
          same,
        )
        (rw gone (append-nil (at_time u ms) ∙ ap (λ (v : ℕ). at_time v ms) (beq_eq u t same)))
  | inr other ↦ rw (
    slots u,
    at_time-append t (at_time u ms) (gather m tss),
    at_time_again t u ms,
    gather-at_time ms m t tss slots d.1,
    other,
  )
]

abbrev pub times : List PipelineMessage → List ℕ
times = map (λ (m : PipelineMessage). m.ts)

weaken-AscendingFrom :
    (low u : ℕ) (xs : List ℕ) → low ≤ u → AscendingFrom u xs → AscendingFrom low xs
weaken-AscendingFrom low u [] h a = tt
weaken-AscendingFrom low u (x ∷ xs) h a = (omega (arith, a.0), a.1)

slot-AscendingFrom :
    (u : ℕ) (ms rest : List PipelineMessage)
    → AscendingFrom u (times rest)
    → AscendingFrom u (times (at_time u ms ++ rest))
unfolding at_time
slot-AscendingFrom u [] rest h = h
slot-AscendingFrom u (m ∷ ms) rest h = elim (Bool-cases (m.ts == u)) [
  | inl same ↦ rw same (
    omega (arith, beq_eq m.ts u same),
    weaken-AscendingFrom m.ts u (times (at_time u ms ++ rest)) (omega (arith, beq_eq m.ts u same))
        (slot-AscendingFrom u ms rest h),
  )
  | inr other ↦ rw other (slot-AscendingFrom u ms rest h)
]

gather-AscendingFrom :
    (ms : List PipelineMessage) (m : Assoc ℕ (List PipelineMessage)) (low : ℕ) (tss : List ℕ)
    → ((u : ℕ) → messages_at m u ≡ at_time u ms)
    → StrictFrom low tss
    → AscendingFrom low (times (gather m tss))
unfolding gather
gather-AscendingFrom ms m low [] slots a = tt
gather-AscendingFrom ms m low (u ∷ tss) slots a = rw (slots u) (
    weaken-AscendingFrom low u (times (at_time u ms ++ gather m tss)) a.0 (
      slot-AscendingFrom u ms (gather m tss) (
        weaken-AscendingFrom u (suc u) (times (gather m tss)) (omega arith)
          (gather-AscendingFrom ms m (suc u) tss slots a.1))))

-- The state after some messages reached the orderer, in order.
abbrev pub after : SymbolState → List PipelineMessage → SymbolState
after s [] = s
after s (m ∷ ms) = after (ts_order m s).state ms

after-Parked :
    (before ms : List PipelineMessage) (s : SymbolState)
    → Parked before s
    → Parked (before ++ ms) (after s ms)
after-Parked before [] s b = rw (append-nil before) b
after-Parked before (m ∷ ms) s b =
    rw (← append_assoc before (m ∷ []) ms)
      (after-Parked (before ++ (m ∷ [])) ms (ts_order m s).state (order-Parked m before s b))

unparked :
    (ms : List PipelineMessage) (s : SymbolState) (t : ℕ)
    → Parked ms s
    → (if contains t (sort s.buffer_time) then at_time t ms else []) ≡ at_time t ms
unparked ms s t b = elim (Option-cases (lookup t s.buffer_time_map)) [
  | inl absent ↦ rw (sort-contains t s.buffer_time, b.present t, absent) (rw absent at (b.slots t))
  | inr (slot, found) ↦ rw (sort-contains t s.buffer_time, b.present t, found)
]

-- After any messages reach a fresh time orderer, a flush hands them out in ascending order of their
-- times, and those of one time all of them, in the order in which they arrived.
pub flush-AscendingFrom :
    (s : SymbolState) (first : PipelineMessage) (ms : List PipelineMessage)
    → let out = (prepare_ts_buffer_flush (after (init_ts_orderer_state s first) ms)).0 in
      AscendingFrom 0 (times out) × ((t : ℕ) → at_time t out ≡ at_time t ms)
unfolding prepare_ts_buffer_flush
flush-AscendingFrom s first ms =
    let b = after-Parked [] ms (init_ts_orderer_state s first) (init-Parked s first) in
    let final = after (init_ts_orderer_state s first) ms in
    let strict = sort-StrictFrom final.buffer_time b.distinct in
    (
      gather-AscendingFrom ms final.buffer_time_map 0 (sort final.buffer_time) b.slots strict,
      λ t.
          gather-at_time ms final.buffer_time_map t (sort final.buffer_time) b.slots
            (StrictFrom-Distinct 0 (sort final.buffer_time) strict)
          ∙ unparked ms final t b,
    )
