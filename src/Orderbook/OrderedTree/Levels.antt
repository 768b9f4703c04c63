-- ===== src/Orderbook/OrderedTree/Levels.antt =====
-- The levels of an ordered tree: they stay in order, and a price's level is the one put last.
use market_tick_aggregator.Prelude.{
  ◌≡◌, refl, ◌∙◌, true, false, [], ◌∷◌, ◌++◌, none, some, if◌then◌else◌, Eq, ◌==◌, arith,
  Bool-cases, inl, inr, beq_eq, beq_refl, subst, All, All-append,
}
use market_tick_aggregator.Prelude.Assoc.{lookup}
use market_tick_aggregator.Orderbook.OrderedTree.{
  PriceOrder, Levels, reversed, below, put_level, drop_level,
}

pub below_of_rest :
    {P : Type 0} ⦃e : Eq P⦄ ⦃o : PriceOrder P⦄ (p r : P)
    → below r p ≡ false
    → (r == p) ≡ false
    → below p r ≡ true
below_of_rest ⦃e⦄ ⦃o⦄ p r up other = elim (Bool-cases (below p r)) [
  | inl low ↦ low
  | inr down ↦ cc ((e.sound r p).1 (o.below_total r p up down))
]

module _ {P Q : Type 0} ⦃e : Eq P⦄ ⦃o : PriceOrder P⦄ where
  abbrev pub AllAbove : P → Levels P Q → Type 0
  AllAbove p = All (λ (level : P × Q). below p level.0 ≡ true)

  abbrev pub AllBelow : P → Levels P Q → Type 0
  AllBelow p = All (λ (level : P × Q). below level.0 p ≡ true)

  -- Prices rise, or fall, from each level to the next.
  abbrev pub Ascends : Levels P Q → Type 0
  Ascends [] = Unit {0}
  Ascends (level ∷ levels) = AllAbove level.0 levels × Ascends levels

  abbrev pub Descends : Levels P Q → Type 0
  Descends [] = Unit {0}
  Descends (level ∷ levels) = AllBelow level.0 levels × Descends levels

  AllAbove-put_level :
      (r p : P) (q : Q) (l : Levels P Q)
      → below r p ≡ true
      → AllAbove r l
      → AllAbove r (put_level p q l)
  unfolding put_level
  AllAbove-put_level r p q [] h a = (h, tt)
  AllAbove-put_level r p q ((j, s) ∷ l) h a = ground (arith, AllAbove-put_level r p q l)

  AllAbove-drop_level : (r p : P) (l : Levels P Q) → AllAbove r l → AllAbove r (drop_level p l)
  unfolding drop_level
  AllAbove-drop_level r p [] a = tt
  AllAbove-drop_level r p ((j, s) ∷ l) a = ground (arith, AllAbove-drop_level r p l)

  pub AllAbove-below : (p r : P) (l : Levels P Q) → below p r ≡ true → AllAbove r l → AllAbove p l
  AllAbove-below p r [] h a = tt
  AllAbove-below p r ((j, s) ∷ l) h a = (o.below_trans p r j h a.0, AllAbove-below p r l h a.1)

  pub put_level-Ascends : (p : P) (q : Q) (l : Levels P Q) → Ascends l → Ascends (put_level p q l)
  unfolding put_level
  put_level-Ascends p q [] a = (tt, tt)
  put_level-Ascends p q ((r, s) ∷ l) a = elim (Bool-cases (below r p)) [
    | inl low ↦ rw low (AllAbove-put_level r p q l low a.0, put_level-Ascends p q l a.1)
    | inr up ↦ rw up (elim (Bool-cases (r == p)) [
      | inl same ↦ rw same (subst (λ (j : P). AllAbove j l) (beq_eq r p same) a.0, a.1)
      | inr other ↦
          let low = below_of_rest p r up other in rw other ((low, AllAbove-below p r l low a.0), a)
    ])
  ]

  pub drop_level-Ascends : (p : P) (l : Levels P Q) → Ascends l → Ascends (drop_level p l)
  unfolding drop_level
  drop_level-Ascends p [] a = tt
  drop_level-Ascends p ((r, s) ∷ l) a =
      ground (arith, AllAbove-drop_level r p l, drop_level-Ascends p l)

  -- a price below all levels has none
  pub lookup-AllAbove : (p : P) (l : Levels P Q) → AllAbove p l → lookup p l ≡ none
  unfolding lookup
  lookup-AllAbove p [] a = refl
  lookup-AllAbove p ((r, s) ∷ l) a =
      ground (arith, beq_eq r p, o.below_irreflexive p, lookup-AllAbove p l)

  pub lookup-put_level :
      (p k : P) (q : Q) (l : Levels P Q)
      → lookup k (put_level p q l) ≡ (if p == k then some q else lookup k l)
  unfolding put_level lookup
  lookup-put_level p k q [] = refl
  lookup-put_level p k q ((r, s) ∷ l) = ground (
    arith,
    lookup-put_level p k q l,
    beq_eq r k,
    beq_eq p k,
    beq_eq r p,
    beq_refl p,
    o.below_irreflexive p,
  )

  pub lookup-drop_level :
      (p k : P) (l : Levels P Q)
      → Ascends l
      → lookup k (drop_level p l) ≡ (if p == k then none else lookup k l)
  unfolding drop_level lookup
  lookup-drop_level p k [] a = ground arith
  lookup-drop_level p k ((r, s) ∷ l) a =
      ground
        (arith, lookup-drop_level p k l, beq_eq r k, beq_eq p k, beq_eq r p, lookup-AllAbove r l)

  lookup-append :
      (k : P) (l m : Levels P Q)
      → lookup k (l ++ m) ≡ (elim (lookup k l) [ none ↦ lookup k m | some q ↦ some q ])
  unfolding lookup
  lookup-append k [] m = refl
  lookup-append k ((r, s) ∷ l) m = ground (arith, lookup-append k l m)

  Descends-append_last :
      (level : P × Q) (l : Levels P Q)
      → Descends l
      → AllAbove level.0 l
      → Descends (l ++ level ∷ [])
  Descends-append_last level [] d a = (tt, tt)
  Descends-append_last level ((r, s) ∷ l) d a = (
    All-append (λ (other : P × Q). below other.0 r ≡ true) l (level ∷ []) d.0 (a.0, tt),
    Descends-append_last level l d.1 a.1,
  )

  AllAbove-reversed : (p : P) (l : Levels P Q) → AllAbove p l → AllAbove p (reversed l)
  AllAbove-reversed p [] a = tt
  AllAbove-reversed p (level ∷ l) a =
      All-append (λ (other : P × Q). below p other.0 ≡ true) (reversed l) (level ∷ [])
        (AllAbove-reversed p l a.1) (a.0, tt)

  pub reversed-Descends : (l : Levels P Q) → Ascends l → Descends (reversed l)
  reversed-Descends [] a = tt
  reversed-Descends (level ∷ l) a =
      Descends-append_last level (reversed l) (reversed-Descends l a.1)
        (AllAbove-reversed level.0 l a.0)

  pub lookup-reversed : (k : P) (l : Levels P Q) → Ascends l → lookup k (reversed l) ≡ lookup k l
  unfolding lookup
  lookup-reversed k [] a = refl
  lookup-reversed k ((r, s) ∷ l) a =
      lookup-append k (reversed l) ((r, s) ∷ [])
      ∙ rw (lookup-reversed k l a.1) (ground (arith, beq_eq r k, lookup-AllAbove r l a.0))
