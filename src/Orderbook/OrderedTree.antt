-- ===== src/Orderbook/OrderedTree.antt =====
-- orderbook/orderedtree/ordered_tree.go: the interface of a map in the order of its keys, and what
-- it promises as a list of levels. Prices and quantities are float64 in the source; here they are
-- types with the tests that the code makes of them. `NaN`, which no test finds, is not a price.
pub mod Levels
pub mod Whole
use market_tick_aggregator.Prelude.{
  ℕ, ◌≡◌, Bool, true, false, List, [], ◌∷◌, ◌++◌, Option, none, some, if◌then◌else◌, length, Eq,
  ◌==◌,
}

-- `below a b` is the comparison a < b.
pub record PriceOrder (P : Type 0) : Type 0 where
  pub below : P → P → Bool
  pub below_irreflexive : (a : P) → below a a ≡ false
  pub below_trans : (a b c : P) → below a b ≡ true → below b c ≡ true → below a c ≡ true
  pub below_total : (a b : P) → below a b ≡ false → below b a ≡ false → a ≡ b

-- the keys and values of a tree, in the order of an iterator
abbrev pub Levels : Type 0 → Type 0 → Type 0
Levels P Q = List (P × Q)

module _ {P Q : Type 0} where
  abbrev pub first : Levels P Q → Option (P × Q)
  first [] = none
  first (level ∷ levels) = some level

  abbrev pub reversed : Levels P Q → Levels P Q
  reversed [] = []
  reversed (level ∷ levels) = reversed levels ++ level ∷ []

abbrev pub below : {P : Type 0} ⦃o : PriceOrder P⦄ → P → P → Bool
below ⦃o⦄ = o.below

module _ {P Q : Type 0} ⦃e : Eq P⦄ ⦃o : PriceOrder P⦄ where
  -- What an insertion and a deletion do to the levels in ascending order.
  unfoldable pub put_level : P → Q → Levels P Q → Levels P Q
  put_level p q [] = (p, q) ∷ []
  put_level p q ((r, s) ∷ levels) =
      if below r p
      then (r, s) ∷ put_level p q levels
      else if r == p
      then (p, q) ∷ levels
      else (p, q) ∷ (r, s) ∷ levels

  unfoldable pub drop_level : P → Levels P Q → Levels P Q
  drop_level p [] = []
  drop_level p ((r, s) ∷ levels) = if r == p then levels else (r, s) ∷ drop_level p levels

-- `ascending` and `descending` are the levels that Iterator and ReverseIterator run through.
pub record OrderedTree (P Q : Type 0) ⦃e : Eq P⦄ ⦃o : PriceOrder P⦄ : Type 1 where
  pub Tree : Type 0
  pub new_tree : Tree
  pub insert : P → Q → Tree → Tree
  pub delete : P → Tree → Tree
  pub least : Tree → Option (P × Q)
  pub greatest : Tree → Option (P × Q)
  pub size : Tree → ℕ
  pub ascending : Tree → Levels P Q
  pub descending : Tree → Levels P Q
  pub IsTree : Tree → Type 0
  pub new_tree-IsTree : IsTree new_tree
  pub insert-IsTree : (p : P) (q : Q) (t : Tree) → IsTree t → IsTree (insert p q t)
  pub delete-IsTree : (p : P) (t : Tree) → IsTree t → IsTree (delete p t)
  pub ascending-new_tree : ascending new_tree ≡ []
  pub ascending-insert :
      (p : P) (q : Q) (t : Tree) → IsTree t → ascending (insert p q t) ≡ put_level p q (ascending t)
  pub ascending-delete :
      (p : P) (t : Tree) → IsTree t → ascending (delete p t) ≡ drop_level p (ascending t)
  pub descending_reverses : (t : Tree) → IsTree t → descending t ≡ reversed (ascending t)
  pub least_first : (t : Tree) → IsTree t → least t ≡ first (ascending t)
  pub greatest_first : (t : Tree) → IsTree t → greatest t ≡ first (descending t)
  pub size-length : (t : Tree) → IsTree t → size t ≡ length (ascending t)
