-- ===== src/Orderbook/SkipList/Iterate.antt =====
-- What the iterators give, and the ends of the list.
use market_tick_aggregator.Prelude.{
  ℕ, zero, suc, ◌+◌, ◌≡◌, ◌≤◌, refl, sym, ap, ◌∙◌, false, List, [], ◌∷◌, ◌++◌, none, length, Eq,
  ◌==◌, nat_eq, arith, Bool-cases, inl, inr, beq_eq,
}
use mathlib.Core.List.{append-nil, append_assoc}
use market_tick_aggregator.Orderbook.OrderedTree.{PriceOrder, Levels, first, reversed}
use market_tick_aggregator.Orderbook.SkipList.{
  SkipList, Ref, nil, head, node, ref_eq, least, greatest, iterate, iterate_back, ascending,
  descending,
}
use market_tick_aggregator.Orderbook.SkipList.Cells.{
  Cell, levels_of, next_at, last_at, length-levels_of,
}
use market_tick_aggregator.Orderbook.SkipList.Chain.{Inner, Prevs, IsSkipList}

module _ {P Q : Type 0} (s : SkipList P Q) where
  iterate-levels_of :
      (cs : List (Cell P Q)) (fuel : ℕ)
      → length cs ≤ fuel
      → s.entry nil ≡ none
      → Inner s cs
      → iterate fuel s (next_at 0 cs) ≡ levels_of cs
  unfolding iterate
  iterate-levels_of [] zero h n i = refl
  iterate-levels_of [] (suc fuel) h n i = rw n
  iterate-levels_of (c ∷ cs) zero h n i = absurd (omega arith)
  iterate-levels_of (c ∷ cs) (suc fuel) h n i =
      rw (i.0.on_bottom, i.0.holds, i.0.links 0 i.0.on_bottom)
        (ap (λ (l : Levels P Q). (c.key, c.value) ∷ l)
          (iterate-levels_of cs fuel (omega arith) n i.1))

  first_entry :
      (cs : List (Cell P Q))
      → s.entry nil ≡ none
      → Inner s cs
      → s.entry (next_at 0 cs) ≡ first (levels_of cs)
  first_entry [] n i = n
  first_entry (c ∷ cs) n i = rw i.0.on_bottom i.0.holds

  -- What the iterator gives backwards from the last of the cells, behind `r`.
  iterate_back-levels_of :
      (cs : List (Cell P Q)) (r : Ref) (fuel : ℕ) (l : Levels P Q)
      → ((r == nil) ≡ false)
      → Inner s cs
      → Prevs s r cs
      → iterate_back fuel s r ≡ l
      → iterate_back (length cs + fuel) s (last_at 0 r cs) ≡ reversed (levels_of cs) ++ l
  unfolding iterate_back
  iterate_back-levels_of [] r fuel l h i p b =
      let same : 0 + fuel ≡ fuel = omega arith in ap (λ (f : ℕ). iterate_back f s r) same ∙ b
  iterate_back-levels_of (c ∷ cs) r fuel l h i p b =
      let here : iterate_back (suc fuel) s (node c.id) ≡ (c.key, c.value) ∷ l =
        rw (p.0, h, i.0.holds) (ap (λ (m : Levels P Q). (c.key, c.value) ∷ m) b) in
      let fuels : suc (length cs) + fuel ≡ length cs + suc fuel = omega arith in
      rw i.0.on_bottom (
        ap (λ (f : ℕ). iterate_back f s (last_at 0 (node c.id) cs)) fuels
        ∙ iterate_back-levels_of cs (node c.id) (suc fuel) ((c.key, c.value) ∷ l) refl i.1 p.1 here
        ∙ sym (append_assoc (reversed (levels_of cs)) ((c.key, c.value) ∷ []) l))

  backwards :
      (cs : List (Cell P Q))
      → Inner s cs
      → Prevs s head cs
      → iterate_back (length cs) s (last_at 0 nil cs) ≡ reversed (levels_of cs)
  backwards [] i p = unfold iterate_back in refl
  backwards (c ∷ cs) i p =
      let fuels : length (c ∷ cs) ≡ length (c ∷ cs) + 0 = omega arith in
      let start : iterate_back 0 s head ≡ [] = unfold iterate_back in refl in
      let from_head : last_at 0 nil (c ∷ cs) ≡ last_at 0 head (c ∷ cs) = rw i.0.on_bottom in
      ap (λ (r : Ref). iterate_back (length (c ∷ cs)) s r) from_head
      ∙ ap (λ (f : ℕ). iterate_back f s (last_at 0 head (c ∷ cs))) fuels
      ∙ iterate_back-levels_of (c ∷ cs) head 0 [] refl i p start
      ∙ append-nil (reversed (levels_of (c ∷ cs)))

  last_entry :
      (cs : List (Cell P Q)) (r : Ref) (l : Levels P Q)
      → Inner s cs
      → s.entry r ≡ first l
      → s.entry (last_at 0 r cs) ≡ first (reversed (levels_of cs) ++ l)
  last_entry [] r l i h = h
  last_entry (c ∷ cs) r l i h = rw i.0.on_bottom (
      last_entry cs (node c.id) ((c.key, c.value) ∷ l) i.1 i.0.holds
      ∙ ap first (sym (append_assoc (reversed (levels_of cs)) ((c.key, c.value) ∷ []) l)))

module _ {P Q : Type 0} ⦃e : Eq P⦄ ⦃o : PriceOrder P⦄ (s : SkipList P Q) (cs : List (Cell P Q))
    (g : IsSkipList s cs) where
  -- The iterators run through the levels, up and down; there is enough fuel for all of them.
  pub ascending-levels_of : ascending s ≡ levels_of cs
  unfolding ascending
  ascending-levels_of = rw (g.pointers.start 0 refl) (
      iterate-levels_of s cs s.size (omega (arith, g.counted)) g.pointers.no_entry g.pointers.inner)

  pub descending-levels_of : descending s ≡ reversed (levels_of cs)
  unfolding descending
  descending-levels_of =
      ap (λ (fuel : ℕ). iterate_back fuel s s.tail) g.counted
      ∙ ap (λ (r : Ref). iterate_back (length cs) s r) g.pointers.ends
      ∙ backwards s cs g.pointers.inner g.pointers.prevs

  pub least-levels_of : least s ≡ first (levels_of cs)
  unfolding least
  least-levels_of =
      ap s.entry (g.pointers.start 0 refl) ∙ first_entry s cs g.pointers.no_entry g.pointers.inner

  pub greatest-levels_of : greatest s ≡ first (reversed (levels_of cs))
  unfolding greatest
  greatest-levels_of = rw g.pointers.ends (elim (Bool-cases (last_at 0 nil cs == nil)) [
    | inl empty ↦
        rw empty
          (sym g.pointers.no_entry ∙ ap s.entry (sym (beq_eq (last_at 0 nil cs) nil empty)) ∙ whole)
    | inr some_node ↦ rw some_node whole
  ])
    where
      whole : s.entry (last_at 0 nil cs) ≡ first (reversed (levels_of cs))
      whole =
          last_entry s cs nil [] g.pointers.inner g.pointers.no_entry
          ∙ ap first (append-nil (reversed (levels_of cs)))

  pub size-levels_of : s.size ≡ length (levels_of cs)
  size-levels_of = g.counted ∙ sym (length-levels_of cs)
