-- ===== src/Orderbook/SkipList/Chain.antt =====
-- What holds of a skip list between two calls: its pointers follow its nodes in the order of keys.
use market_tick_aggregator.Prelude.{
  ℕ, ◌≡◌, ◌≤◌, ◌<◌, refl, Bool, true, List, [], ◌∷◌, none, some, length, ltb, Eq, nat_eq, arith,
}
use market_tick_aggregator.Orderbook.OrderedTree.{PriceOrder, Levels}
use market_tick_aggregator.Orderbook.OrderedTree.Levels.{Ascends}
use market_tick_aggregator.Orderbook.SkipList.{
  SkipList, Ref, nil, head, ref_eq, max_level, new_skip_list,
}
use market_tick_aggregator.Orderbook.SkipList.Cells.{
  Cell, ref_of, levels_of, next_at, last_at, Distinct,
}

module _ {P Q : Type 0} where
  -- On each of its levels, `r` points to the first of the cells that stand on it.
  abbrev pub Links : SkipList P Q → Ref → ℕ → List (Cell P Q) → Type 0
  Links s r tall cs = (i : ℕ) → ltb i tall ≡ true → s.forward r i ≡ next_at i cs

  pub record Stands (s : SkipList P Q) (c : Cell P Q) (cs : List (Cell P Q)) : Type 0 where
    pub links : Links s (ref_of c) c.tall cs
    pub holds : s.entry (ref_of c) ≡ some (c.key, c.value)
    pub on_bottom : ltb 0 c.tall ≡ true

  abbrev pub Inner : SkipList P Q → List (Cell P Q) → Type 0
  Inner s [] = Unit {0}
  Inner s (c ∷ cs) = Stands s c cs × Inner s cs

  abbrev pub Prevs : SkipList P Q → Ref → List (Cell P Q) → Type 0
  Prevs s r [] = Unit {0}
  Prevs s r (c ∷ cs) = (s.prev (ref_of c) ≡ r) × Prevs s (ref_of c) cs

  -- Their names have been allocated, and their levels are in use.
  abbrev pub Known : SkipList P Q → List (Cell P Q) → Type 0
  Known s [] = Unit {0}
  Known s (c ∷ cs) = (c.id < s.allocated) × (c.tall ≤ s.level) × Known s cs

  pub record Pointers (s : SkipList P Q) (cs : List (Cell P Q)) : Type 0 where
    pub start : Links s head max_level cs
    pub inner : Inner s cs
    pub prevs : Prevs s head cs
    pub ends : s.tail ≡ last_at 0 nil cs
    pub no_entry : s.entry nil ≡ none
    pub no_prev : s.prev head ≡ nil

module _ {P Q : Type 0} ⦃e : Eq P⦄ ⦃o : PriceOrder P⦄ where
  pub record IsSkipList (s : SkipList P Q) (cs : List (Cell P Q)) : Type 0 where
    pub pointers : Pointers s cs
    pub distinct : Distinct cs
    pub ascends : Ascends (levels_of cs)
    pub known : Known s cs
    pub counted : s.size ≡ length cs
    pub some_level : 1 ≤ s.level
    pub level_capped : s.level ≤ max_level

  pub new-IsSkipList : (flips : ℕ → Bool) → IsSkipList (new_skip_list flips) []
  unfolding new_skip_list
  new-IsSkipList flips = record {
    pointers = record {
      start = λ i h. refl;
      inner = tt;
      prevs = tt;
      ends = refl;
      no_entry = refl;
      no_prev = refl;
    };
    distinct = tt;
    ascends = tt;
    known = tt;
    counted = refl;
    some_level = omega arith;
    level_capped = omega arith;
  }

  -- A skip list of these levels.
  abbrev pub ListOf : SkipList P Q → Levels P Q → Type 0
  ListOf s l = (cs : List (Cell P Q)) × IsSkipList s cs × (levels_of cs ≡ l)
