-- ===== src/Orderbook/SkipList/Run.antt =====
-- Any sequence of insertions and deletions, against a sorted list.
use market_tick_aggregator.Prelude.{ℕ, ◌≡◌, refl, ap, ◌∙◌, Bool, List, [], ◌∷◌, length, Eq, subst}
use market_tick_aggregator.Prelude.Assoc.{lookup}
use market_tick_aggregator.Orderbook.OrderedTree.{
  PriceOrder, Levels, first, reversed, put_level, drop_level,
}
use market_tick_aggregator.Orderbook.OrderedTree.Levels.{Ascends}
use market_tick_aggregator.Orderbook.SkipList.{
  SkipList, new_skip_list, insert, delete, get, least, greatest, ascending, descending,
}
use market_tick_aggregator.Orderbook.SkipList.Chain.{new-IsSkipList, ListOf}
use market_tick_aggregator.Orderbook.SkipList.Insertion.{insert-ListOf}
use market_tick_aggregator.Orderbook.SkipList.Deletion.{delete-ListOf}
use market_tick_aggregator.Orderbook.SkipList.Get.{get-lookup}
use market_tick_aggregator.Orderbook.SkipList.Iterate.{
  ascending-levels_of, descending-levels_of, least-levels_of, greatest-levels_of, size-levels_of,
}

pub data Op (P Q : Type 0) : Type 0 where
  inserts : P → Q → Op P Q
  deletes : P → Op P Q

module _ {P Q : Type 0} ⦃e : Eq P⦄ ⦃o : PriceOrder P⦄ where
  abbrev step : Op P Q → SkipList P Q → SkipList P Q
  step (inserts p q) s = (insert p q s).0
  step (deletes p) s = (delete p s).0

  unfoldable pub run : List (Op P Q) → SkipList P Q → SkipList P Q
  run [] s = s
  run (op ∷ ops) s = run ops (step op s)

  -- The same on a sorted list.
  abbrev step_levels : Op P Q → Levels P Q → Levels P Q
  step_levels (inserts p q) l = put_level p q l
  step_levels (deletes p) l = drop_level p l

  unfoldable pub run_levels : List (Op P Q) → Levels P Q → Levels P Q
  run_levels [] l = l
  run_levels (op ∷ ops) l = run_levels ops (step_levels op l)

  step-ListOf :
      (op : Op P Q) (s : SkipList P Q) (l : Levels P Q)
      → ListOf s l
      → ListOf (step op s) (step_levels op l)
  step-ListOf (inserts p q) s l (cs, g, same) =
      let (ds, h, put) = insert-ListOf p q s cs g in (ds, h, put ∙ ap (put_level p q) same)
  step-ListOf (deletes p) s l (cs, g, same) =
      let (ds, h, drop) = delete-ListOf p s cs g in (ds, h, drop ∙ ap (drop_level p) same)

  run-ListOf :
      (ops : List (Op P Q)) (s : SkipList P Q) (l : Levels P Q)
      → ListOf s l
      → ListOf (run ops s) (run_levels ops l)
  unfolding run run_levels
  run-ListOf [] s l h = h
  run-ListOf (op ∷ ops) s l h = run-ListOf ops (step op s) (step_levels op l) (step-ListOf op s l h)

  -- After any sequence of insertions and deletions in a new skip list, and whatever the coins give, the
  -- skip list is the sorted list to which the same was done: its prices rise, the two iterators run
  -- through it up and down, Get finds what it holds at a price, Min and Max give its ends, and Size
  -- counts it.
  pub run-run_levels :
      (flips : ℕ → Bool) (ops : List (Op P Q))
      → let s = run ops (new_skip_list flips) in
        let l = run_levels ops [] in
        Ascends l
        × (ascending s ≡ l)
        × (descending s ≡ reversed l)
        × ((k : P) → get s k ≡ lookup k l)
        × (least s ≡ first l)
        × (greatest s ≡ first (reversed l))
        × (s.size ≡ length l)
  run-run_levels flips ops =
      let s = run ops (new_skip_list flips) in
      let (cs, g, same) =
        run-ListOf ops (new_skip_list flips) [] ([], new-IsSkipList flips, refl) in
      (
        subst Ascends same g.ascends,
        ascending-levels_of s cs g ∙ same,
        descending-levels_of s cs g ∙ ap reversed same,
        λ k. get-lookup k s cs g ∙ ap (λ (l : Levels P Q). lookup k l) same,
        least-levels_of s cs g ∙ ap first same,
        greatest-levels_of s cs g ∙ ap (λ (l : Levels P Q). first (reversed l)) same,
        size-levels_of s cs g ∙ ap (λ (l : Levels P Q). length l) same,
      )
