-- ===== src/Normalizer/Orderer/Sequence/Buffer.antt =====
-- The parked messages of a sequence orderer: the list of ids and the map agree, and what a flush
-- makes of them.
use market_tick_aggregator.Prelude.{
  ℕ, ◌≡◌, refl, sym, ◌∙◌, ap, true, false, List, [], ◌∷◌, ◌++◌, map, Option, some, if◌then◌else◌,
  nat_eq, ◌==◌, arith, contains, contains-append, is_some, Bool-cases, Option-cases, inl, inr, ◌⊎◌,
  if_split, beq_refl, beq_eq, or_else, Among, here, there,
}
use mathlib.Core.Path.{ap₂}
use market_tick_aggregator.Prelude.Int.{pos, ltb_ℤ}
use market_tick_aggregator.Prelude.Assoc.{Assoc, lookup, insert, lookup-insert}
use market_tick_aggregator.Prelude.Sort.{
  sort, sort-contains, StrictFrom, sort-StrictFrom, Distinct, Distinct-append_last,
}
use market_tick_aggregator.Normalizer.State.{PipelineMessage, SymbolState, Ordered}
use market_tick_aggregator.Normalizer.Orderer.Sequence.{
  park_sequence, order_next, sequence_orderer, is_empty, pick, sequence_sort_buffer_flush,
}

pub record SeqBuffer (s : SymbolState) : Type 0 where
  pub agree : (id : ℕ) → contains id s.buffer_seq_id ≡ is_some (lookup id s.buffer_seq_map)
  pub own :
      (id : ℕ) (msg : PipelineMessage) → lookup id s.buffer_seq_map ≡ some msg → msg.seq_id ≡ id
  pub distinct : Distinct s.buffer_seq_id
  pub calm : s.gap_active ≡ false → s.needs_snapshot ≡ false → s.buffer_seq_map ≡ []

pub empty-SeqBuffer : (s : SymbolState) → s.buffer_seq_id ≡ [] → s.buffer_seq_map ≡ [] → SeqBuffer s
unfolding lookup
empty-SeqBuffer s i m = record {
  agree = λ id. rw (i, m);
  own = λ id msg h. cc (ap (λ (t : Assoc ℕ PipelineMessage). lookup id t) m);
  distinct = rw i tt;
  calm = λ _ _. m;
}

-- The list of ids after parking `id`.
abbrev with_id : ℕ → List ℕ → Assoc ℕ PipelineMessage → List ℕ
with_id id ids m = if is_some (lookup id m) then ids else ids ++ (id ∷ [])

with_id-agree :
    (msg : PipelineMessage) (ids : List ℕ) (m : Assoc ℕ PipelineMessage) (id : ℕ)
    → contains id ids ≡ is_some (lookup id m)
    → contains msg.seq_id ids ≡ is_some (lookup msg.seq_id m)
    → contains id (with_id msg.seq_id ids m) ≡ is_some (lookup id (insert msg.seq_id msg m))
with_id-agree msg ids m id a b =
    ground (arith, lookup-insert msg.seq_id id msg m, contains-append id ids (msg.seq_id ∷ []))

with_id-Distinct :
    (id : ℕ) (ids : List ℕ) (m : Assoc ℕ PipelineMessage)
    → contains id ids ≡ is_some (lookup id m)
    → Distinct ids
    → Distinct (with_id id ids m)
with_id-Distinct id ids m a d =
    if_split Distinct (is_some (lookup id m)) (λ _. d)
      (λ new. Distinct-append_last id ids (a ∙ new) d)

insert-own :
    (msg y : PipelineMessage) (m : Assoc ℕ PipelineMessage) (id : ℕ)
    → ((y : PipelineMessage) → lookup id m ≡ some y → y.seq_id ≡ id)
    → lookup id (insert msg.seq_id msg m) ≡ some y
    → y.seq_id ≡ id
insert-own msg y m id own h = elim (Bool-cases (msg.seq_id == id)) [
  | inl same ↦
      let e : some msg ≡ some y = sym (rw same at (lookup-insert msg.seq_id id msg m)) ∙ h in
      ap (λ (o : Option PipelineMessage). (or_else o y).seq_id) (sym e) ∙ beq_eq msg.seq_id id same
  | inr other ↦ own y (sym (rw other at (lookup-insert msg.seq_id id msg m)) ∙ h)
]

-- What parking keeps, whatever becomes of the flags that allow messages to be parked.
pub park-SeqBuffer :
    (msg : PipelineMessage) (s t : SymbolState)
    → SeqBuffer s
    → t.buffer_seq_id ≡ (park_sequence msg s).buffer_seq_id
    → t.buffer_seq_map ≡ (park_sequence msg s).buffer_seq_map
    → (t.gap_active ≡ true) ⊎ (t.needs_snapshot ≡ true)
    → SeqBuffer t
unfolding park_sequence
park-SeqBuffer msg s t b i m flag = record {
  agree = λ id.
      rw (i, m)
        (with_id-agree msg s.buffer_seq_id s.buffer_seq_map id (b.agree id) (b.agree msg.seq_id));
  own = λ id y h. insert-own msg y s.buffer_seq_map id (b.own id) (rw m at h);
  distinct = rw i (
      with_id-Distinct msg.seq_id s.buffer_seq_id s.buffer_seq_map (b.agree msg.seq_id) b.distinct);
  calm = λ g n. ground arith;
}

order_next-SeqBuffer :
    (msg : PipelineMessage) (s : SymbolState) → SeqBuffer s → SeqBuffer (order_next msg s).state
unfolding order_next park_sequence
order_next-SeqBuffer msg s b =
    if_split (λ (o : Ordered). SeqBuffer o.state) (ltb_ℤ (pos msg.seq_id) s.last_seq_id)
      (λ _. park-SeqBuffer msg s _ b refl refl (inl refl))
      (λ _. record { agree = b.agree; own = b.own; distinct = b.distinct; calm = b.calm })

-- A message that reaches the orderer of a synced symbol keeps the buffer consistent.
pub sequence_orderer-SeqBuffer :
    (msg : PipelineMessage) (s : SymbolState)
    → s.needs_snapshot ≡ false
    → SeqBuffer s
    → SeqBuffer (sequence_orderer msg s).state
unfolding sequence_orderer park_sequence
sequence_orderer-SeqBuffer msg s synced b =
    if_split (λ (o : Ordered). SeqBuffer o.state) s.gap_active
      (λ active. park-SeqBuffer msg s (park_sequence msg s) b refl refl (inl active))
      (λ calm.
        if_split (λ (o : Ordered). SeqBuffer o.state) (is_empty s.buffer_seq_map)
          (λ _. order_next-SeqBuffer msg s b)
          (λ full.
            cc (full, ap (λ (m : Assoc ℕ PipelineMessage). is_empty m) (b.calm calm synced))))

-- The messages that a flush hands out are those of the sorted ids.
pick-ids :
    (m : Assoc ℕ PipelineMessage) (ids : List ℕ)
    → ((id : ℕ) → contains id ids ≡ true → is_some (lookup id m) ≡ true)
    → ((id : ℕ) (msg : PipelineMessage) → lookup id m ≡ some msg → msg.seq_id ≡ id)
    → map (λ (y : PipelineMessage). y.seq_id) (pick m ids) ≡ ids
unfolding pick
pick-ids m [] held own = refl
pick-ids m (id ∷ ids) held own = elim (Option-cases (lookup id m)) [
  | inl e ↦ cc (held id (rw (beq_refl id)), ap (λ (o : Option PipelineMessage). is_some o) e)
  | inr (msg, e) ↦
      rw (e, pick) (ap₂ ◌∷◌ (own id msg e) (pick-ids m ids (λ j h. held j (ground (arith, h))) own))
]

pub pick-Among :
    (m : Assoc ℕ PipelineMessage) (id : ℕ) (msg : PipelineMessage) (ids : List ℕ)
    → lookup id m ≡ some msg
    → contains id ids ≡ true
    → Among msg (pick m ids)
unfolding pick
pick-Among m id msg [] found h = cc h
pick-Among m id msg (x ∷ ids) found h = elim (Bool-cases (x == id)) [
  | inl same ↦
      let found' : lookup x m ≡ some msg = ap (λ (j : ℕ). lookup j m) (beq_eq x id same) ∙ found in
      rw (found', pick) (here refl)
  | inr other ↦ elim (Option-cases (lookup x m)) [
    | inl absent ↦ rw (absent, pick) (pick-Among m id msg ids found (ground (arith, h, other)))
    | inr (y, e) ↦ rw (e, pick) (there (pick-Among m id msg ids found (ground (arith, h, other))))
  ]
]

-- What is picked is parked.
pub Among-pick :
    (m : Assoc ℕ PipelineMessage) (msg : PipelineMessage) (ids : List ℕ)
    → Among msg (pick m ids)
    → (id : ℕ) × (lookup id m ≡ some msg)
unfolding pick
Among-pick m msg [] a = elim a [ ]
Among-pick m msg (x ∷ ids) a = elim (Option-cases (lookup x m)) [
  | inl absent ↦ Among-pick m msg ids (rw (absent, pick) at a)
  | inr (y, e) ↦ elim (rw (e, pick) at a) [
    | here same ↦ (x, e ∙ ap some (sym same))
    | there rest ↦ Among-pick m msg ids rest
  ]
]

-- A flush of a consistent buffer hands out one message for each parked id, in strictly ascending
-- order of the ids.
pub flush-StrictFrom :
    (s : SymbolState)
    → SeqBuffer s
    → let ids = map (λ (y : PipelineMessage). y.seq_id) (sequence_sort_buffer_flush s).0 in
      StrictFrom 0 ids × ((id : ℕ) → contains id ids ≡ is_some (lookup id s.buffer_seq_map))
unfolding sequence_sort_buffer_flush
flush-StrictFrom s b = rw flushed (
  sort-StrictFrom s.buffer_seq_id b.distinct,
  λ id. sort-contains id s.buffer_seq_id ∙ b.agree id,
)
  where
    flushed :
        map (λ (y : PipelineMessage). y.seq_id) (pick s.buffer_seq_map (sort s.buffer_seq_id))
        ≡ sort s.buffer_seq_id
    flushed =
        pick-ids s.buffer_seq_map (sort s.buffer_seq_id)
          (λ id h. sym (b.agree id) ∙ sym (sort-contains id s.buffer_seq_id) ∙ h) b.own
