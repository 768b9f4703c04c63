-- ===== src/Aggregator/Checkpoint/Covered.antt =====
-- Every committed input is covered by the checkpoints that are stored.
use market_tick_aggregator.Prelude.{
  ◌≡◌, refl, sym, ap, ◌∙◌, Bool, true, false, ◌||◌, List, [], ◌∷◌, Option, none, some, or_else,
  contains, ◌==◌, Eq, Among, here, there, Bool-cases, inl, inr, ◌⊎◌, subst, beq_eq, arith,
}
use market_tick_aggregator.Prelude.Assoc.{Assoc, lookup, insert, lookup-insert}
use market_tick_aggregator.Aggregator.Checkpoint.Covers.{Covers}
use market_tick_aggregator.Aggregator.Checkpoint.{
  Effects, Batch, AggregatorWorker, state_of, mark_dirty, write_acked, any_failed,
}

module _ {K S T : Type 0} ⦃e : Eq K⦄ (x : Effects S T) (restore : K → S) where
  abbrev pub pending : Option (Batch K S) → K → Option S
  pending none k = none
  pending (some b) k = lookup k b.entries

  abbrev pub entries_of : Option (Batch K S) → Assoc K S
  entries_of none = []
  entries_of (some b) = b.entries

  -- Every tick that the first state has taken, the second has taken.
  abbrev pub Within : S → S → Type 0
  Within a b = (t : T) → Covers x a t → Covers x b t

  -- The worker, what the checkpoint topic holds, the ticks processed so far, those processed before
  -- the batch in flight was taken, and those processed before the committed positions were polled.
  pub record World : Type 0 where
    pub worker : AggregatorWorker K S
    pub stored : Assoc K S
    pub processed : List (K × T)
    pub batched : List (K × T)
    pub committed : List (K × T)

  abbrev pub now : World → K → S
  now v k = state_of x restore v.worker.symbol_state k

  abbrev pub saved : World → K → S
  saved v k = state_of x restore v.stored k

  pub record Covered (v : World) : Type 0 where
    pub taken : (k : K) (t : T) → Among (k, t) v.processed → Covers x (now v k) t
    pub behind : (k : K) → Within (saved v k) (now v k)
    pub clean :
        (k : K)
        → contains k v.worker.dirty ≡ false
        → pending v.worker.in_flight k ≡ none
        → Within (now v k) (saved v k)
    pub unique :
        (k : K) (s : S)
        → Among (k, s) (entries_of v.worker.in_flight)
        → pending v.worker.in_flight k ≡ some s
    pub newer : (k : K) (s : S) → pending v.worker.in_flight k ≡ some s → Within (saved v k) s
    pub older : (k : K) (s : S) → pending v.worker.in_flight k ≡ some s → Within s (now v k)
    pub same :
        (k : K) (s : S)
        → pending v.worker.in_flight k ≡ some s
        → contains k v.worker.dirty ≡ false
        → Within (now v k) s
    pub held :
        (k : K) (t : T)
        → Among (k, t) v.batched
        → Covers x (or_else (pending v.worker.in_flight k) (saved v k)) t
    pub safe : (k : K) (t : T) → Among (k, t) v.committed → Covers x (saved v k) t

  -- The states move on, and those of symbols that are not dirty do not.
  pub record Moves (v : World) (m : Assoc K S) (dirty : List K) : Type 0 where
    pub forward : (k : K) → Within (now v k) (state_of x restore m k)
    pub marked :
        (k : K)
        → contains k dirty ≡ false
        → (contains k v.worker.dirty ≡ false) × (state_of x restore m k ≡ now v k)

  abbrev pub moved : World → Assoc K S → List K → World
  moved v m dirty = record v { worker = record v.worker { symbol_state = m; dirty = dirty } }

  pub moved-Covered :
      (v : World) (m : Assoc K S) (dirty : List K)
      → Moves v m dirty
      → Covered v
      → Covered (moved v m dirty)
  moved-Covered v m dirty g c = record {
    taken = λ k t a. g.forward k t (c.taken k t a);
    behind = λ k t h. g.forward k t (c.behind k t h);
    clean = λ k d p t h.
        c.clean k (g.marked k d).0 p t (subst (λ (s : S). Covers x s t) (g.marked k d).1 h);
    unique = c.unique;
    newer = c.newer;
    older = λ k s p t h. g.forward k t (c.older k s p t h);
    same = λ k s p d t h.
        c.same k s p (g.marked k d).0 t (subst (λ (s : S). Covers x s t) (g.marked k d).1 h);
    held = c.held;
    safe = c.safe;
  }

  pub contains-mark_dirty :
      (j k : K) (ks : List K) → contains j (mark_dirty x restore k ks) ≡ ((k == j) || contains j ks)
  unfolding mark_dirty
  contains-mark_dirty j k ks = ground (arith, beq_eq k j)

  pub write_acked-cases :
      (k : K) (es : Assoc K S) (acks : List Bool) (stored : Assoc K S)
      → (state_of x restore (write_acked x restore es acks stored) k ≡ state_of x restore stored k)
        ⊎ ((s : S) × Among (k, s) es
            × (state_of x restore (write_acked x restore es acks stored) k ≡ s))
  unfolding write_acked
  write_acked-cases k [] acks stored = inl refl
  write_acked-cases k (entry ∷ es) [] stored = inl refl
  write_acked-cases k ((j, v) ∷ es) (false ∷ acks) stored =
      elim (write_acked-cases k es acks stored) [
        | inl kept ↦ inl kept
        | inr (s, a, w) ↦ inr (s, there a, w)
      ]
  write_acked-cases k ((j, v) ∷ es) (true ∷ acks) stored =
      elim (write_acked-cases k es acks (insert j v stored)) [
        | inr (s, a, w) ↦ inr (s, there a, w)
        | inl kept ↦ elim (Bool-cases (j == k)) [
          | inl same ↦ inr (
            v,
            here (ap (λ (i : K). (i, v)) (sym (beq_eq j k same))),
            kept ∙ rw (lookup-insert j k v stored, same),
          )
          | inr other ↦ inl (kept ∙ rw (lookup-insert j k v stored, other))
        ]
      ]

  pub all_acked :
      (k : K) (s : S) (es : Assoc K S) (acks : List Bool) (stored : Assoc K S)
      → any_failed x restore es acks ≡ false
      → lookup k es ≡ some s
      → ((u : S) → Among (k, u) es → u ≡ s)
      → state_of x restore (write_acked x restore es acks stored) k ≡ s
  unfolding write_acked any_failed lookup
  all_acked k s [] acks stored f h only = cc h
  all_acked k s (entry ∷ es) [] stored f h only = cc f
  all_acked k s ((j, v) ∷ es) (false ∷ acks) stored f h only = cc f
  all_acked k s ((j, v) ∷ es) (true ∷ acks) stored f h only = elim (Bool-cases (j == k)) [
    | inr other ↦
        all_acked k s es acks (insert j v stored) f (rw other at h) (λ u a. only u (there a))
    | inl same ↦ elim (write_acked-cases k es acks (insert j v stored)) [
      | inr (u, a, w) ↦ w ∙ only u (there a)
      | inl kept ↦
          kept
          ∙ rw (lookup-insert j k v stored, same)
              (only v (here (ap (λ (i : K). (i, v)) (sym (beq_eq j k same)))))
    ]
  ]
