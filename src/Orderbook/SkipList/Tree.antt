-- ===== src/Orderbook/SkipList/Tree.antt =====
-- The skip list is an ordered tree.
use market_tick_aggregator.Prelude.{ℕ, ◌≡◌, sym, ap, ◌∙◌, Bool, List, [], length, Eq}
use market_tick_aggregator.Orderbook.OrderedTree.{
  PriceOrder, Levels, OrderedTree, first, reversed, put_level, drop_level,
}
use market_tick_aggregator.Orderbook.SkipList.{
  SkipList, new_skip_list, insert, delete, least, greatest, ascending, descending,
}
use market_tick_aggregator.Orderbook.SkipList.Cells.{Cell}
use market_tick_aggregator.Orderbook.SkipList.Chain.{IsSkipList, new-IsSkipList}
use market_tick_aggregator.Orderbook.SkipList.Insertion.{insert-ListOf}
use market_tick_aggregator.Orderbook.SkipList.Deletion.{delete-ListOf}
use market_tick_aggregator.Orderbook.SkipList.Iterate.{
  ascending-levels_of, descending-levels_of, least-levels_of, greatest-levels_of, size-levels_of,
}

module _ {P Q : Type 0} ⦃e : Eq P⦄ ⦃o : PriceOrder P⦄ (flips : ℕ → Bool) where
  abbrev pub Listed : SkipList P Q → Type 0
  Listed s = (cs : List (Cell P Q)) × IsSkipList s cs

  pub new-Listed : Listed (new_skip_list flips)
  new-Listed = ([], new-IsSkipList flips)

  pub ascending-new : ascending {P = P} {Q = Q} (new_skip_list flips) ≡ []
  ascending-new = ascending-levels_of (new_skip_list flips) [] (new-IsSkipList flips)

  pub insert-Listed : (p : P) (q : Q) (s : SkipList P Q) → Listed s → Listed (insert p q s).0
  insert-Listed p q s (cs, g) = let (ds, h, same) = insert-ListOf p q s cs g in (ds, h)

  pub delete-Listed : (p : P) (s : SkipList P Q) → Listed s → Listed (delete p s).0
  delete-Listed p s (cs, g) = let (ds, h, same) = delete-ListOf p s cs g in (ds, h)

  pub ascending-insert :
      (p : P) (q : Q) (s : SkipList P Q)
      → Listed s
      → ascending (insert p q s).0 ≡ put_level p q (ascending s)
  ascending-insert p q s (cs, g) =
      let (ds, h, same) = insert-ListOf p q s cs g in
      ascending-levels_of (insert p q s).0 ds h
      ∙ same
      ∙ ap (put_level p q) (sym (ascending-levels_of s cs g))

  pub ascending-delete :
      (p : P) (s : SkipList P Q) → Listed s → ascending (delete p s).0 ≡ drop_level p (ascending s)
  ascending-delete p s (cs, g) =
      let (ds, h, same) = delete-ListOf p s cs g in
      ascending-levels_of (delete p s).0 ds h
      ∙ same
      ∙ ap (drop_level p) (sym (ascending-levels_of s cs g))

  pub descending_reverses : (s : SkipList P Q) → Listed s → descending s ≡ reversed (ascending s)
  descending_reverses s (cs, g) =
      descending-levels_of s cs g ∙ ap reversed (sym (ascending-levels_of s cs g))

  pub least_first : (s : SkipList P Q) → Listed s → least s ≡ first (ascending s)
  least_first s (cs, g) = least-levels_of s cs g ∙ ap first (sym (ascending-levels_of s cs g))

  pub greatest_first : (s : SkipList P Q) → Listed s → greatest s ≡ first (descending s)
  greatest_first s (cs, g) =
      greatest-levels_of s cs g ∙ ap first (sym (descending-levels_of s cs g))

  pub size-length : (s : SkipList P Q) → Listed s → s.size ≡ length (ascending s)
  size-length s (cs, g) =
      size-levels_of s cs g ∙ ap (λ (l : Levels P Q). length l) (sym (ascending-levels_of s cs g))

  abbrev pub skip_list_tree : OrderedTree P Q
  skip_list_tree = record {
    Tree = SkipList P Q;
    new_tree = new_skip_list flips;
    insert = λ p q s. (insert p q s).0;
    delete = λ p s. (delete p s).0;
    least = λ s. least s;
    greatest = λ s. greatest s;
    size = λ s. s.size;
    ascending = λ s. ascending s;
    descending = λ s. descending s;
    IsTree = λ s. Listed s;
    new_tree-IsTree = new-Listed;
    insert-IsTree = insert-Listed;
    delete-IsTree = delete-Listed;
    ascending-new_tree = ascending-new;
    ascending-insert = ascending-insert;
    ascending-delete = ascending-delete;
    descending_reverses = descending_reverses;
    least_first = least_first;
    greatest_first = greatest_first;
    size-length = size-length;
  }
