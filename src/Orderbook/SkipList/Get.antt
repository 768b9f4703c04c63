-- ===== src/Orderbook/SkipList/Get.antt =====
-- `get` finds the level of a key.
use market_tick_aggregator.Prelude.{
  ◌≡◌, refl, sym, ap, ◌∙◌, subst, true, List, [], ◌∷◌, ◌++◌, some, Eq, ◌==◌, Bool-cases, inl, inr,
  beq_eq,
}
use market_tick_aggregator.Prelude.Assoc.{lookup}
use market_tick_aggregator.Orderbook.OrderedTree.{PriceOrder, below}
use market_tick_aggregator.Orderbook.OrderedTree.Levels.{
  AllAbove-below, below_of_rest, lookup-AllAbove,
}
use market_tick_aggregator.Orderbook.SkipList.{SkipList, ref_eq, get}
use market_tick_aggregator.Orderbook.SkipList.Cells.{Cell, levels_of}
use market_tick_aggregator.Orderbook.SkipList.Chain.{IsSkipList}
use market_tick_aggregator.Orderbook.SkipList.Find.{Low, High, split_at, found_at}
use market_tick_aggregator.Orderbook.SkipList.Put.{Inner-parts}
use market_tick_aggregator.Orderbook.SkipList.Deletion.{Ascends-suffix}

module _ {P Q : Type 0} ⦃e : Eq P⦄ ⦃o : PriceOrder P⦄ (key : P) (s : SkipList P Q) where
  lookup-Low :
      (b a : List (Cell P Q))
      → Low key b
      → lookup key (levels_of (b ++ a)) ≡ lookup key (levels_of a)
  unfolding lookup
  lookup-Low [] a h = refl
  lookup-Low (c ∷ b) a h = elim (Bool-cases (c.key == key)) [
    | inl same ↦
        cc (
          o.below_irreflexive key,
          subst (λ (k : P). below k key ≡ true) (beq_eq c.key key same) h.0,
        )
    | inr other ↦ rw other (lookup-Low b a h.1)
  ]

  get_at :
      (b a : List (Cell P Q))
      → IsSkipList s (b ++ a)
      → Low key b
      → High key a
      → get s key ≡ lookup key (levels_of (b ++ a))
  unfolding get
  get_at b [] g low high =
      let (at_next, last) = found_at s key b [] g low high in
      rw (at_next, g.pointers.no_entry) (unfold lookup in sym (lookup-Low b [] low))
  get_at b (c ∷ a) g low high =
      let (at_next, last) = found_at s key b (c ∷ a) g low high in
      let inner = Inner-parts s b (c ∷ a) g.pointers.inner in
      let rises = Ascends-suffix b (c ∷ a) g.ascends in
      elim (Bool-cases (c.key == key)) [
        | inl same ↦
            let here : lookup key (levels_of (c ∷ a)) ≡ some c.value = unfold lookup in rw same in
            rw (at_next, inner.0.on_bottom, inner.0.holds, same)
              (sym (lookup-Low b (c ∷ a) low ∙ here))
        | inr other ↦
            let above = below_of_rest key c.key high.0 other in
            let absent =
              lookup-AllAbove key (levels_of (c ∷ a))
                (above, AllAbove-below key c.key (levels_of a) above rises.0) in
            rw (at_next, inner.0.on_bottom, inner.0.holds, other)
              (sym (lookup-Low b (c ∷ a) low ∙ absent))
      ]

  pub get-lookup : (cs : List (Cell P Q)) → IsSkipList s cs → get s key ≡ lookup key (levels_of cs)
  get-lookup cs g =
      let (b, a, whole, low, high) = split_at s key cs g.ascends in
      get_at b a (subst (IsSkipList s) (sym whole) g) low high
      ∙ ap (λ (ds : List (Cell P Q)). lookup key (levels_of ds)) whole
