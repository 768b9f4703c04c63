-- ===== src/Persistence/Batcher/Flush.antt =====
-- What one flush writes, sends to the dead letter queue and marks.
use market_tick_aggregator.Prelude.{
  ℕ, ◌≡◌, refl, sym, ap, ◌∙◌, Bool, true, false, ◌&&◌, List, [], ◌∷◌, ◌++◌, Option, none, some,
  if◌then◌else◌, max, or_else, nat_eq, ◌==◌, arith, Bool-cases, Option-cases, inl, inr, beq_eq,
  if_split,
}
use mathlib.Core.List.{append-nil, append_assoc}
use market_tick_aggregator.Prelude.Assoc.{Assoc, lookup, lookup-insert}
use market_tick_aggregator.Persistence.Batcher.{
  BatchItem, Batcher, Calls, Flushed, Screened, note_max, screen, note_all, write, flush_screened,
  flush,
}

-- The greater of two offsets that may be missing.
abbrev pub greater : Option ℕ → Option ℕ → Option ℕ
greater none b = b
greater (some a) none = some a
greater (some a) (some b) = some (max a b)

greater_assoc : (a b c : Option ℕ) → greater (greater a b) c ≡ greater a (greater b c)
greater_assoc none b c = refl
greater_assoc (some a) none c = refl
greater_assoc (some a) (some b) none = refl
greater_assoc (some a) (some b) (some c) = ap some (omega arith)

greater-none : (a : Option ℕ) → greater a none ≡ a
greater-none none = refl
greater-none (some a) = refl

greater_swap : (a b c : Option ℕ) → greater a (greater b c) ≡ greater b (greater a c)
greater_swap none b c = refl
greater_swap (some a) none c = refl
greater_swap (some a) (some b) none = ap some (omega arith)
greater_swap (some a) (some b) (some c) = ap some (omega arith)

greater_again : (a b : Option ℕ) → greater a (greater a b) ≡ greater a b
greater_again none b = refl
greater_again (some a) none = ap some (omega arith)
greater_again (some a) (some b) = ap some (omega arith)

lookup-note_max :
    (p q off : ℕ) (m : Assoc ℕ ℕ)
    → lookup q (note_max p off m) ≡ (if p == q then greater (lookup q m) (some off) else lookup q m)
unfolding note_max
lookup-note_max p q off m = elim (Option-cases (lookup p m)) [
  | inl e ↦ ground (arith, e, lookup-insert p q (max (or_else (lookup p m) 0) off) m, beq_eq p q)
  | inr (cur, e) ↦
      ground (arith, e, lookup-insert p q (max (or_else (lookup p m) 0) off) m, beq_eq p q)
]

module _ {T : Type 0} (invalid : T → Bool) where
  -- The highest offset of a partition in a batch.
  unfoldable pub highest : ℕ → List (BatchItem T) → Option ℕ
  highest q [] = none
  highest q (x ∷ xs) =
      let rest = highest q xs in if x.partition == q then greater (some x.offset) rest else rest

  -- The rows of a batch that pass the check, and those that do not.
  unfoldable pub valid_rows : List (BatchItem T) → List T
  valid_rows [] = []
  valid_rows (x ∷ xs) = let rest = valid_rows xs in if invalid x.item then rest else x.item ∷ rest

  unfoldable pub corrupt_rows : List (BatchItem T) → List T
  corrupt_rows [] = []
  corrupt_rows (x ∷ xs) =
      let rest = corrupt_rows xs in if invalid x.item then x.item ∷ rest else rest

  -- The corrupt items of a batch.
  unfoldable pub corrupt : List (BatchItem T) → List (BatchItem T)
  corrupt [] = []
  corrupt (x ∷ xs) = let rest = corrupt xs in if invalid x.item then x ∷ rest else rest

  lookup-note_all :
      (q : ℕ) (xs : List (BatchItem T)) (m : Assoc ℕ ℕ)
      → lookup q (note_all invalid xs m) ≡ greater (lookup q m) (highest q xs)
  unfolding note_all highest
  lookup-note_all q [] m = sym (greater-none (lookup q m))
  lookup-note_all q (x ∷ xs) m = elim (Bool-cases (x.partition == q)) [
    | inl same ↦
        rw
          (
            lookup-note_all q xs (note_max x.partition x.offset m),
            lookup-note_max x.partition q x.offset m,
            same,
          )
          (greater_assoc (lookup q m) (some x.offset) (highest q xs))
    | inr other ↦ rw (
      lookup-note_all q xs (note_max x.partition x.offset m),
      lookup-note_max x.partition q x.offset m,
      other,
    )
  ]

  highest-corrupt :
      (q : ℕ) (xs : List (BatchItem T))
      → greater (highest q (corrupt xs)) (highest q xs) ≡ highest q xs
  unfolding highest corrupt
  highest-corrupt q [] = refl
  highest-corrupt q (x ∷ xs) = elim (Bool-cases (invalid x.item)) [
    | inr good ↦ elim (Bool-cases (x.partition == q)) [
      | inl same ↦
          rw (good, same)
            (greater_swap (highest q (corrupt xs)) (some x.offset) (highest q xs)
              ∙ ap (greater (some x.offset)) (highest-corrupt q xs))
      | inr other ↦ rw (good, other) (highest-corrupt q xs)
    ]
    | inl bad ↦ elim (Bool-cases (x.partition == q)) [
      | inl same ↦ rw bad (
          rw (highest, same)
            (greater_assoc (some x.offset) (highest q (corrupt xs))
                (greater (some x.offset) (highest q xs))
              ∙ ap (greater (some x.offset)) (
                  greater_swap (highest q (corrupt xs)) (some x.offset) (highest q xs)
                  ∙ ap (greater (some x.offset)) (highest-corrupt q xs))
              ∙ greater_again (some x.offset) (highest q xs)))
      | inr other ↦ rw bad (rw (highest, other) (highest-corrupt q xs))
    ]
  ]

  -- What the loop over the batch leaves if the dead letter queue refuses nothing.
  abbrev screened : List T → List T → Assoc ℕ ℕ → List (BatchItem T) → Screened T
  screened valid dead offsets xs = record {
    refused = false;
    valid = valid ++ valid_rows xs;
    dead = dead ++ corrupt_rows xs;
    offsets = note_all invalid (corrupt xs) offsets;
  }

  screen-screened :
      (calls : Calls T) (xs : List (BatchItem T)) (valid dead : List T) (offsets : Assoc ℕ ℕ)
      → (screen invalid calls xs valid dead offsets).refused ≡ false
      → screen invalid calls xs valid dead offsets ≡ screened valid dead offsets xs
  unfolding screen valid_rows corrupt_rows corrupt note_all
  screen-screened calls [] valid dead offsets h = cc (append-nil valid, append-nil dead)
  screen-screened calls (x ∷ xs) valid dead offsets h = elim (Bool-cases (invalid x.item)) [
    | inr good ↦
        rw (good, screen)
          (screen-screened calls xs (valid ++ (x.item ∷ [])) dead offsets (rw (good, screen) at h)
            ∙ cc (append_assoc valid (x.item ∷ []) (valid_rows xs)))
    | inl bad ↦ elim (Bool-cases (calls.handle_event_error x.item)) [
      | inr refused ↦ cc (rw refused at (rw (bad, screen) at h))
      | inl taken ↦
          rw (bad, screen)
            (rw taken (
              screen-screened calls xs valid (dead ++ (x.item ∷ []))
                (note_max x.partition x.offset offsets) (rw taken at (rw (bad, screen) at h))
              ∙ cc (append_assoc dead (x.item ∷ []) (corrupt_rows xs))))
    ]
  ]

  -- No valid row, so every item is corrupt.
  corrupt-eq : (xs : List (BatchItem T)) → valid_rows xs ≡ [] → corrupt xs ≡ xs
  unfolding valid_rows corrupt
  corrupt-eq [] h = refl
  corrupt-eq (x ∷ xs) h = elim (Bool-cases (invalid x.item)) [
    | inl bad ↦ rw bad (ap (λ (l : List (BatchItem T)). x ∷ l) (corrupt-eq xs (rw bad at h)))
    | inr good ↦ cc (rw good at h)
  ]

  -- The batch is done with: every valid row is committed and every corrupt one is in the dead letter
  -- queue, in their order; each partition is marked up to its highest offset in the batch.
  pub record Settled (b : Batcher T) (f : Flushed T) : Type 0 where
    pub emptied : f.batcher.items ≡ []
    pub disarmed : f.batcher.linger_armed ≡ false
    pub all_valid : f.committed ≡ valid_rows b.items
    pub all_corrupt : f.dead ≡ corrupt_rows b.items
    pub up_to_highest :
        (offsets : Assoc ℕ ℕ) × (f.marked ≡ some offsets)
        × ((q : ℕ) → lookup q offsets ≡ highest q b.items)

  write-Settled :
      (calls : Calls T) (b : Batcher T)
      → (write invalid calls (screened [] [] [] b.items) b).failed ≡ false
      → Settled b (write invalid calls (screened [] [] [] b.items) b)
  unfolding write lookup
  write-Settled calls b =
      if_split (λ (f : Flushed T). f.failed ≡ false → Settled b f)
        (calls.init_tx && (calls.flush_fn && calls.commit))
        (λ up h. record {
          emptied = refl;
          disarmed = refl;
          all_valid = refl;
          all_corrupt = refl;
          up_to_highest = (
            note_all invalid b.items (note_all invalid (corrupt b.items) []),
            refl,
            λ q.
                lookup-note_all q b.items (note_all invalid (corrupt b.items) [])
                ∙ ap (λ (o : Option ℕ). greater o (highest q b.items))
                    (lookup-note_all q (corrupt b.items) [])
                ∙ highest-corrupt q b.items,
          );
        })
        (λ down h. cc h)

  flush_screened-Settled :
      (calls : Calls T) (b : Batcher T) (valid : List T)
      → valid_rows b.items ≡ valid
      → (flush_screened invalid calls (screened [] [] [] b.items) b).failed ≡ false
      → Settled b (flush_screened invalid calls (screened [] [] [] b.items) b)
  unfolding flush_screened lookup
  flush_screened-Settled calls b [] e h =
      rw (e, flush_screened)
        (record {
          emptied = refl;
          disarmed = refl;
          all_valid = sym e;
          all_corrupt = refl;
          up_to_highest = (
            note_all invalid (corrupt b.items) [],
            refl,
            λ q.
                lookup-note_all q (corrupt b.items) []
                ∙ ap (λ (xs : List (BatchItem T)). highest q xs) (corrupt-eq b.items e),
          );
        })
  flush_screened-Settled calls b (x ∷ xs) e h =
      rw (e, flush_screened) (write-Settled calls b (rw (e, flush_screened) at h))

  screened-refused :
      (calls : Calls T) (s : Screened T) (b : Batcher T)
      → (flush_screened invalid calls s b).failed ≡ false
      → s.refused ≡ false
  unfolding flush_screened
  screened-refused calls s b h = elim (Bool-cases s.refused) [
    | inl refused ↦ cc (rw refused at h)
    | inr accepted ↦ accepted
  ]

  -- A flush that reports no error has committed every row that passes the check and sent every other
  -- one to the dead letter queue, both in order of arrival; it marks each partition up to its highest
  -- offset in the batch, and leaves an empty batch with no clock running.
  pub flush-Settled :
      (calls : Calls T) (b : Batcher T)
      → (flush invalid calls b).failed ≡ false
      → Settled b (flush invalid calls b)
  unfolding flush
  flush-Settled calls b h =
      let e =
        screen-screened calls b.items [] [] []
          (screened-refused calls (screen invalid calls b.items [] [] []) b h) in
      rw e (flush_screened-Settled calls b (valid_rows b.items) refl (rw e at h))

  abbrev pub Untouched : Batcher T → Flushed T → Type 0
  Untouched b f = (f.batcher ≡ b) × (f.committed ≡ []) × (f.marked ≡ none)

  write-Untouched :
      (calls : Calls T) (s : Screened T) (b : Batcher T)
      → (write invalid calls s b).failed ≡ true
      → Untouched b (write invalid calls s b)
  unfolding write
  write-Untouched calls s b =
      if_split (λ (f : Flushed T). f.failed ≡ true → Untouched b f)
        (calls.init_tx && (calls.flush_fn && calls.commit)) (λ up h. cc h)
        (λ down h. (refl, refl, refl))

  unrefused-Untouched :
      (calls : Calls T) (s : Screened T) (b : Batcher T) (valid : List T)
      → s.refused ≡ false
      → s.valid ≡ valid
      → (flush_screened invalid calls s b).failed ≡ true
      → Untouched b (flush_screened invalid calls s b)
  unfolding flush_screened
  unrefused-Untouched calls s b [] r e h = cc (rw e at (rw (r, flush_screened) at h))
  unrefused-Untouched calls s b (x ∷ xs) r e h =
      rw (r, flush_screened)
        (rw e (write-Untouched calls s b (rw e at (rw (r, flush_screened) at h))))

  -- A flush that reports an error, wherever it fails, leaves the batch as it was and commits and marks
  -- nothing, so that its rows are tried again.
  pub flush-Untouched :
      (calls : Calls T) (b : Batcher T)
      → (flush invalid calls b).failed ≡ true
      → Untouched b (flush invalid calls b)
  unfolding flush flush_screened
  flush-Untouched calls b h = elim (Bool-cases (screen invalid calls b.items [] [] []).refused) [
    | inl refused ↦ rw (refused, flush_screened) (refl, refl, refl)
    | inr accepted ↦
        unrefused-Untouched calls (screen invalid calls b.items [] [] []) b _ accepted refl h
  ]
