-- ===== src/Orderbook/Book.antt =====
-- orderbook/book: the two sides of an order book, each over an ordered tree of its price levels.
pub mod Quotes
mod Tests
use market_tick_aggregator.Prelude.{
  ℕ, ◌≡◌, Bool, true, false, List, [], ◌∷◌, ◌++◌, Option, none, some, if◌then◌else◌, length, ltb,
  Eq,
}
use market_tick_aggregator.Orderbook.OrderedTree.{PriceOrder, Levels, OrderedTree}

pub data Side : Type 0 where
  bid ask : Side

-- PriceLevel
abbrev pub PriceLevel : Type 0 → Type 0 → Type 0
PriceLevel P Q = P × Q

-- `is_removal q` is the test quantity <= 0.
module _ {P Q : Type 0} ⦃e : Eq P⦄ ⦃o : PriceOrder P⦄ (x : OrderedTree P Q)
    (is_removal : Q → Bool) where
  pub record TreeBookSide : Type 0 where
    pub side : Side
    pub ordered_tree : x.Tree

  unfoldable pub new_tree_book_side : Side → TreeBookSide
  new_tree_book_side s = record { side = s; ordered_tree = x.new_tree }

  unfoldable pub upsert : P → Q → TreeBookSide → TreeBookSide
  upsert price quantity t =
      if is_removal quantity
      then record t { ordered_tree = x.delete price t.ordered_tree }
      else record t { ordered_tree = x.insert price quantity t.ordered_tree }

  abbrev best_of : Side → x.Tree → Option (PriceLevel P Q)
  best_of bid t = x.greatest t
  best_of ask t = x.least t

  unfoldable pub best : TreeBookSide → Option (PriceLevel P Q)
  best t = best_of t.side t.ordered_tree

  -- for len(levels) < n && it.Valid()
  unfoldable pub top_n_loop : ℕ → Levels P Q → Levels P Q → Levels P Q
  top_n_loop n levels [] = levels
  top_n_loop n levels (level ∷ it) =
      let rest = top_n_loop n (levels ++ level ∷ []) it in
      if ltb (length levels) n then rest else levels

  abbrev iterator_of : Side → x.Tree → Levels P Q
  iterator_of bid t = x.descending t
  iterator_of ask t = x.ascending t

  unfoldable pub top_n : ℕ → TreeBookSide → Levels P Q
  top_n n t = top_n_loop n [] (iterator_of t.side t.ordered_tree)

  unfoldable pub depth : TreeBookSide → ℕ
  depth t = x.size t.ordered_tree

  -- The levels of an update, one after the other.
  unfoldable pub upsert_all : Levels P Q → TreeBookSide → TreeBookSide
  upsert_all [] t = t
  upsert_all ((price, quantity) ∷ levels) t = upsert_all levels (upsert price quantity t)

  pub record OrderBook : Type 0 where
    pub bids : TreeBookSide
    pub asks : TreeBookSide

  unfoldable pub new_order_book : OrderBook
  new_order_book = record { bids = new_tree_book_side bid; asks = new_tree_book_side ask }
