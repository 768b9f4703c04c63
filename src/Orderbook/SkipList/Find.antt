-- ===== src/Orderbook/SkipList/Find.antt =====
-- `find` splits the nodes at a key, and collects the last node before it on each level.
use market_tick_aggregator.Prelude.{
  ℕ, zero, suc, ◌≡◌, ◌≤◌, refl, ap, ◌∙◌, true, false, List, [], ◌∷◌, ◌++◌, none, if◌then◌else◌,
  length, ltb, Eq, ◌==◌, nat_eq, arith, Bool-cases, inl, inr, beq_refl, length-append, ltb→lt,
}
use market_tick_aggregator.Orderbook.OrderedTree.{PriceOrder, below}
use market_tick_aggregator.Orderbook.OrderedTree.Levels.{AllAbove, Ascends}
use market_tick_aggregator.Orderbook.SkipList.{
  SkipList, Ref, nil, head, node, ref_eq, max_level, key_below, walk, find_from, find,
}
use market_tick_aggregator.Orderbook.SkipList.Cells.{Cell, levels_of, next_at, last_at}
use market_tick_aggregator.Orderbook.SkipList.Chain.{Links, Inner, IsSkipList}

module _ {P Q : Type 0} ⦃e : Eq P⦄ ⦃o : PriceOrder P⦄ where
  -- Keys below a key, and keys that are not.
  abbrev pub Low : P → List (Cell P Q) → Type 0
  Low key [] = Unit {0}
  Low key (c ∷ cs) = (below c.key key ≡ true) × Low key cs

  abbrev pub High : P → List (Cell P Q) → Type 0
  High key [] = Unit {0}
  High key (c ∷ cs) = (below c.key key ≡ false) × High key cs

module _ {P Q : Type 0} ⦃e : Eq P⦄ ⦃o : PriceOrder P⦄ (s : SkipList P Q) (key : P) where
  key_below-next_at :
      (i : ℕ) (cs : List (Cell P Q))
      → s.entry nil ≡ none
      → Inner s cs
      → High key cs
      → key_below s (next_at i cs) key ≡ false
  key_below-next_at i [] n h a = rw n
  key_below-next_at i (c ∷ cs) n h a = elim (Bool-cases (ltb i c.tall)) [
    | inl on ↦ rw (on, h.0.holds) a.0
    | inr off ↦ rw off (key_below-next_at i cs n h.1 a.1)
  ]

  find_from_done :
      (i : ℕ) (curr : Ref) (update : ℕ → Ref) → i ≡ 0 → (find_from i s key curr update).0 ≡ curr
  unfolding find_from
  find_from_done zero curr update h = refl
  find_from_done (suc i) curr update h = absurd (omega arith)

  module _ (after : List (Cell P Q)) (no_entry : s.entry nil ≡ none) (high : High key after) where
    -- The walk on a level ends at the last node on it before the key.
    walk-last_at :
        (before : List (Cell P Q)) (fuel i : ℕ) (r : Ref)
        → length before ≤ fuel
        → s.forward r i ≡ next_at i (before ++ after)
        → Inner s (before ++ after)
        → Low key before
        → walk fuel s i key r ≡ last_at i r before
    unfolding walk
    walk-last_at [] zero i r f h n a = refl
    walk-last_at [] (suc fuel) i r f h n a = rw (h, key_below-next_at i after no_entry n high)
    walk-last_at (c ∷ before) zero i r f h n a = absurd (omega arith)
    walk-last_at (c ∷ before) (suc fuel) i r f h n a = elim (Bool-cases (ltb i c.tall)) [
      | inl on ↦
          let onto : s.forward r i ≡ node c.id = rw on at h in
          rw (on, onto, n.0.holds, a.0)
            (walk-last_at before fuel i (node c.id) (omega arith) (n.0.links i on) n.1 a.1)
      | inr off ↦ rw off (walk-last_at before (suc fuel) i r (omega arith) (rw off at h) n.1 a.1)
    ]

    -- From the last node on a higher level, a walk ends where it ends from the start.
    walk_again :
        (before : List (Cell P Q)) (fuel i j : ℕ) (r c : Ref)
        → length before ≤ fuel
        → j ≤ i
        → walk fuel s j key r ≡ last_at j c before
        → Inner s (before ++ after)
        → Low key before
        → walk fuel s j key (last_at i r before) ≡ last_at j c before
    walk_again [] fuel i j r c f l w n a = w
    walk_again (d ∷ before) fuel i j r c f l w n a = elim (Bool-cases (ltb i d.tall)) [
      | inl on ↦
          let on' : ltb j d.tall ≡ true = ground arith in
          rw (on, on')
            (walk_again before fuel i j (node d.id) (node d.id) (omega arith) l
              (walk-last_at before fuel j (node d.id) (omega arith) (n.0.links j on') n.1 a.1) n.1
              a.1)
      | inr off ↦ rw off (
          walk_again before fuel i j r (if ltb j d.tall then node d.id else c) (omega arith) l w n.1
            a.1)
    ]

    -- On a level, what the last node before the key points to comes after it.
    pub forward-last_at :
        (before : List (Cell P Q)) (i : ℕ) (r : Ref)
        → s.forward r i ≡ next_at i (before ++ after)
        → Inner s (before ++ after)
        → s.forward (last_at i r before) i ≡ next_at i after
    forward-last_at [] i r h n = h
    forward-last_at (c ∷ before) i r h n = elim (Bool-cases (ltb i c.tall)) [
      | inl on ↦ rw on (forward-last_at before i (node c.id) (n.0.links i on) n.1)
      | inr off ↦ rw off (forward-last_at before i r (rw off at h) n.1)
    ]

    -- With enough fuel for the nodes, `find` sees the first node that is not before the key, and notes
    -- the last one before it on each level in use.
    module _ (before : List (Cell P Q)) (start : Links s head max_level (before ++ after))
        (inner : Inner s (before ++ after)) (low : Low key before)
        (enough : length before ≤ s.size) where
      find_from-last_at :
          (i : ℕ) (curr : Ref) (update : ℕ → Ref)
          → i ≤ max_level
          → ((j : ℕ) → ltb j i ≡ true → walk s.size s j key curr ≡ last_at j head before)
          → ((j : ℕ) → ltb j i ≡ true → (find_from i s key curr update).1 j ≡ last_at j head before)
            × ((j : ℕ) → ltb j i ≡ false → (find_from i s key curr update).1 j ≡ update j)
            × (1 ≤ i → (find_from i s key curr update).0 ≡ last_at 0 head before)
      unfolding find_from
      find_from-last_at zero curr update capped walks =
          (λ j h. absurd (ground (arith, h)), λ j h. refl, λ h. absurd (omega arith))
      find_from-last_at (suc i) curr update capped walks =
          let next = walk s.size s i key curr in
          let at_next : next ≡ last_at i head before = walks i (ground arith) in
          let rest =
            find_from-last_at i next (λ j. if j == i then next else update j) (omega arith)
              (λ j h. rw at_next (
                walk_again before s.size i j head head enough (ground (arith, h))
                  (walk-last_at before s.size j head enough (start j (ground (arith, h))) inner low)
                  inner low)) in
          (
            λ j h. elim (Bool-cases (ltb j i)) [
              | inl less ↦ rest.0 j less
              | inr last ↦
                  let same : j ≡ i = ground (arith, h) in
                  rest.1 j last ∙ rw same (rw (beq_refl i) at_next)
            ],
            λ j h. rest.1 j (ground (arith, h)) ∙ ground (arith, h),
            λ h. elim (Bool-cases (ltb 0 i)) [
              | inl more ↦ rest.2 (ltb→lt 0 i more)
              | inr done ↦
                  let last : i ≡ 0 = ground (arith, done) in
                  find_from_done i next (λ j. if j == i then next else update j) last
                  ∙ at_next
                  ∙ ap (λ (j : ℕ). last_at j head before) last
            ],
          )

      pub find-next_at :
          1 ≤ s.level
          → s.level ≤ max_level
          → ((find s key).0 ≡ next_at 0 after)
            × ((j : ℕ) → ltb j s.level ≡ true → (find s key).1 j ≡ last_at j head before)
      unfolding find
      find-next_at some_level capped =
          let (updates, others, ends) =
            find_from-last_at s.level head (λ j. nil) capped
              (λ j h.
                walk-last_at before s.size j head enough (start j (ground (arith, h))) inner low) in
          (rw (ends some_level) (forward-last_at before 0 head (start 0 refl) inner), updates)

  High-rest :
      (c : Cell P Q) (cs : List (Cell P Q))
      → below c.key key ≡ false
      → AllAbove c.key (levels_of cs)
      → High key cs
  High-rest c [] up a = tt
  High-rest c (d ∷ cs) up a = elim (Bool-cases (below d.key key)) [
    | inl low ↦ cc (o.below_trans c.key d.key key a.0 low)
    | inr high ↦ (high, High-rest c cs up a.1)
  ]

  -- The nodes before a key, and the rest.
  pub split_at :
      (cs : List (Cell P Q))
      → Ascends (levels_of cs)
      → (before : List (Cell P Q)) × (after : List (Cell P Q)) × (before ++ after ≡ cs)
        × Low key before
        × High key after
  split_at [] a = ([], [], refl, tt, tt)
  split_at (c ∷ cs) a = elim (Bool-cases (below c.key key)) [
    | inl low ↦
        let (before, after, whole, lows, highs) = split_at cs a.1 in
        (c ∷ before, after, ap (λ (l : List (Cell P Q)). c ∷ l) whole, (low, lows), highs)
    | inr up ↦ ([], c ∷ cs, refl, tt, (up, High-rest c cs up a.0))
  ]

  -- `find` at a key, between the nodes before it and the rest.
  pub found_at :
      (b a : List (Cell P Q))
      → IsSkipList s (b ++ a)
      → Low key b
      → High key a
      → ((find s key).0 ≡ next_at 0 a)
        × ((j : ℕ) → ltb j s.level ≡ true → (find s key).1 j ≡ last_at j head b)
  found_at b a g low high =
      find-next_at a g.pointers.no_entry high b g.pointers.start g.pointers.inner low
        (omega (arith, g.counted, length-append {0} b a)) g.some_level g.level_capped
