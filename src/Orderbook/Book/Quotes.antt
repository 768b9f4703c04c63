-- ===== src/Orderbook/Book/Quotes.antt =====
-- A side of the book holds the last quote of each price, best first.
use market_tick_aggregator.Prelude.{
  ℕ, zero, suc, ◌+◌, ◌≡◌, refl, sym, ap, ◌∙◌, Bool, true, [], ◌∷◌, ◌++◌, Option, none, some,
  if◌then◌else◌, length, ltb, Eq, ◌==◌, arith, Bool-cases, inl, inr, length-append,
}
use mathlib.Core.List.{append-nil, append_assoc}
use market_tick_aggregator.Prelude.Assoc.{lookup}
use market_tick_aggregator.Orderbook.OrderedTree.{
  PriceOrder, Levels, OrderedTree, first, reversed, put_level, drop_level,
}
use market_tick_aggregator.Orderbook.OrderedTree.Levels.{
  Ascends, Descends, put_level-Ascends, drop_level-Ascends, lookup-put_level, lookup-drop_level,
  reversed-Descends, lookup-reversed,
}
use market_tick_aggregator.Orderbook.Book.{
  Side, bid, ask, TreeBookSide, new_tree_book_side, upsert, best, top_n_loop, top_n, depth,
  upsert_all,
}

module _ {P Q : Type 0} where
  -- The first `n` levels.
  abbrev pub take : ℕ → Levels P Q → Levels P Q
  take n [] = []
  take zero (level ∷ levels) = []
  take (suc n) (level ∷ levels) = level ∷ take n levels

module _ {P Q : Type 0} ⦃e : Eq P⦄ ⦃o : PriceOrder P⦄ where
  -- Best first: the highest bid, the lowest ask.
  abbrev pub BestFirst : Side → Levels P Q → Type 0
  BestFirst bid levels = Descends levels
  BestFirst ask levels = Ascends levels

  -- The quantity that a stream of quotes leaves at a price, from what there was before it.
  unfoldable pub quoted : (Q → Bool) → P → Levels P Q → Option Q → Option Q
  quoted is_removal k [] before = before
  quoted is_removal k ((p, q) ∷ quotes) before =
      quoted is_removal k quotes
        (if p == k then (if is_removal q then none else some q) else before)

module _ {P Q : Type 0} ⦃e : Eq P⦄ ⦃o : PriceOrder P⦄ (x : OrderedTree P Q)
    (is_removal : Q → Bool) where
  abbrev levels_of : Side → Levels P Q → Levels P Q
  levels_of bid l = reversed l
  levels_of ask l = l

  -- What a side holds, in the order of its prices.
  pub record Holds (s : Side) (t : TreeBookSide x is_removal) (l : Levels P Q) : Type 0 where
    pub same_side : t.side ≡ s
    pub tree : x.IsTree t.ordered_tree
    pub content : x.ascending t.ordered_tree ≡ l
    pub ascends : Ascends l

  new-Holds : (s : Side) → Holds s (new_tree_book_side x is_removal s) []
  unfolding new_tree_book_side
  new-Holds s = record {
    same_side = refl;
    tree = x.new_tree-IsTree;
    content = x.ascending-new_tree;
    ascends = tt;
  }

  put_or_drop : P → Q → Levels P Q → Levels P Q
  put_or_drop p q l = if is_removal q then drop_level p l else put_level p q l

  upsert-Holds :
      (s : Side) (t : TreeBookSide x is_removal) (l : Levels P Q) (p : P) (q : Q)
      → Holds s t l
      → Holds s (upsert x is_removal p q t) (put_or_drop p q l)
  unfolding upsert put_or_drop
  upsert-Holds s t l p q h = elim (Bool-cases (is_removal q)) [
    | inl gone ↦ rw gone (record {
      same_side = h.same_side;
      tree = x.delete-IsTree p t.ordered_tree h.tree;
      content = x.ascending-delete p t.ordered_tree h.tree ∙ ap (drop_level p) h.content;
      ascends = drop_level-Ascends p l h.ascends;
    })
    | inr there ↦ rw there (record {
      same_side = h.same_side;
      tree = x.insert-IsTree p q t.ordered_tree h.tree;
      content = x.ascending-insert p q t.ordered_tree h.tree ∙ ap (put_level p q) h.content;
      ascends = put_level-Ascends p q l h.ascends;
    })
  ]

  lookup-put_or_drop :
      (k p : P) (q : Q) (l : Levels P Q)
      → Ascends l
      → lookup k (put_or_drop p q l)
        ≡ (if p == k then (if is_removal q then none else some q) else lookup k l)
  unfolding put_or_drop
  lookup-put_or_drop k p q l a = ground (arith, lookup-put_level p k q l, lookup-drop_level p k l a)

  upsert_all-Holds :
      (s : Side) (quotes : Levels P Q) (t : TreeBookSide x is_removal) (l : Levels P Q)
      → Holds s t l
      → (m : Levels P Q) × Holds s (upsert_all x is_removal quotes t) m
        × ((k : P) → lookup k m ≡ quoted is_removal k quotes (lookup k l))
  unfolding upsert_all quoted
  upsert_all-Holds s [] t l h = (l, h, λ k. refl)
  upsert_all-Holds s ((p, q) ∷ quotes) t l h =
      let (m, holds, quotes_of) =
        upsert_all-Holds s quotes (upsert x is_removal p q t) (put_or_drop p q l)
          (upsert-Holds s t l p q h) in
      (
        m,
        holds,
        λ k. quotes_of k ∙ ap (quoted is_removal k quotes) (lookup-put_or_drop k p q l h.ascends),
      )

  top_n_loop-take :
      (n : ℕ) (levels it : Levels P Q)
      → top_n_loop x is_removal (length levels + n) levels it ≡ levels ++ take n it
  unfolding top_n_loop
  top_n_loop-take n levels [] = sym (append-nil levels)
  top_n_loop-take zero levels (level ∷ it) = ground (arith, append-nil levels)
  top_n_loop-take (suc n) levels (level ∷ it) =
      let more : ltb (length levels) (length levels + suc n) ≡ true = ground arith in
      let longer : length (levels ++ level ∷ []) + n ≡ length levels + suc n =
        omega (arith, length-append {0} levels (level ∷ [])) in
      rw more (
        ap (λ (m : ℕ). top_n_loop x is_removal m (levels ++ level ∷ []) it) (sym longer)
        ∙ top_n_loop-take n (levels ++ level ∷ []) it
        ∙ append_assoc levels (level ∷ []) (take n it))

  top_n_loop_start : (n : ℕ) (it : Levels P Q) → top_n_loop x is_removal n [] it ≡ take n it
  top_n_loop_start n it =
      let none_yet : n ≡ 0 + n = omega arith in
      ap (λ (m : ℕ). top_n_loop x is_removal m [] it) none_yet ∙ top_n_loop-take n [] it

  levels_of-BestFirst : (s : Side) (l : Levels P Q) → Ascends l → BestFirst s (levels_of s l)
  levels_of-BestFirst bid l a = reversed-Descends l a
  levels_of-BestFirst ask l a = a

  lookup-levels_of :
      (s : Side) (k : P) (l : Levels P Q) → Ascends l → lookup k (levels_of s l) ≡ lookup k l
  lookup-levels_of bid k l a = lookup-reversed k l a
  lookup-levels_of ask k l a = refl

  length-levels_of : (s : Side) (l : Levels P Q) → length (levels_of s l) ≡ length l
  length-levels_of bid [] = refl
  length-levels_of bid (level ∷ l) =
      omega (arith, length-append {0} (reversed l) (level ∷ []), length-levels_of bid l)
  length-levels_of ask l = refl

  Holds-top_n :
      (s : Side) (t : TreeBookSide x is_removal) (l : Levels P Q) (n : ℕ)
      → Holds s t l
      → top_n x is_removal n t ≡ take n (levels_of s l)
  unfolding top_n
  Holds-top_n bid t l n h =
      rw (h.same_side, x.descending_reverses t.ordered_tree h.tree, h.content)
        (top_n_loop_start n (reversed l))
  Holds-top_n ask t l n h = rw (h.same_side, h.content) (top_n_loop_start n l)

  Holds-best :
      (s : Side) (t : TreeBookSide x is_removal) (l : Levels P Q)
      → Holds s t l
      → best x is_removal t ≡ first (levels_of s l)
  unfolding best
  Holds-best bid t l h =
      rw
        (
          h.same_side,
          x.greatest_first t.ordered_tree h.tree,
          x.descending_reverses t.ordered_tree h.tree,
        )
        (ap (λ (m : Levels P Q). first (reversed m)) h.content)
  Holds-best ask t l h = rw (h.same_side, x.least_first t.ordered_tree h.tree) (ap first h.content)

  Holds-depth :
      (s : Side) (t : TreeBookSide x is_removal) (l : Levels P Q)
      → Holds s t l
      → depth x is_removal t ≡ length (levels_of s l)
  unfolding depth
  Holds-depth s t l h =
      x.size-length t.ordered_tree h.tree ∙ ap length h.content ∙ sym (length-levels_of s l)

  -- Of any stream of quotes for a side that starts empty: the side holds, for each price, the quantity
  -- of its last quote, or no level if that quote removes it or there is none. The levels are in the
  -- order of their prices, best first and no price twice; `TopN` returns the first of these, as many
  -- as asked or as there are; `Best` returns the first; and `Depth` counts them all.
  pub upsert_all-quoted :
      (s : Side) (quotes : Levels P Q)
      → let t = upsert_all x is_removal quotes (new_tree_book_side x is_removal s) in
        (levels : Levels P Q) × BestFirst s levels
        × ((k : P) → lookup k levels ≡ quoted is_removal k quotes none)
        × ((n : ℕ) → top_n x is_removal n t ≡ take n levels)
        × (best x is_removal t ≡ first levels)
        × (depth x is_removal t ≡ length levels)
  unfolding lookup
  upsert_all-quoted s quotes =
      let t = upsert_all x is_removal quotes (new_tree_book_side x is_removal s) in
      let (l, h, quotes_of) =
        upsert_all-Holds s quotes (new_tree_book_side x is_removal s) [] (new-Holds s) in
      (
        levels_of s l,
        levels_of-BestFirst s l h.ascends,
        λ k. lookup-levels_of s k l h.ascends ∙ quotes_of k,
        λ n. Holds-top_n s t l n h,
        Holds-best s t l h,
        Holds-depth s t l h,
      )
