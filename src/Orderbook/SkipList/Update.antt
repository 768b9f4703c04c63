-- ===== src/Orderbook/SkipList/Update.antt =====
-- A node that is there takes a new value, or is the first of all.
use market_tick_aggregator.Prelude.{
  ℕ, ◌≡◌, ◌≤◌, refl, sym, ap, ◌∙◌, true, false, List, [], ◌∷◌, ◌++◌, if◌then◌else◌, ltb, Eq, ◌==◌,
  nat_eq, arith, Bool-cases, inl, inr, beq_refl, length-append,
}
use market_tick_aggregator.Orderbook.OrderedTree.{PriceOrder}
use market_tick_aggregator.Orderbook.OrderedTree.Levels.{Ascends}
use market_tick_aggregator.Orderbook.SkipList.{
  SkipList, Ref, nil, head, node, ref_eq, max_level, allocate, set_prev, set_forward, set_entry,
  insert_first,
}
use market_tick_aggregator.Orderbook.SkipList.Cells.{
  Cell, ref_of, levels_of, next_at, Outside, Distinct, Outside-parts, last_at-append,
}
use market_tick_aggregator.Orderbook.SkipList.Chain.{Inner, Prevs, Known, IsSkipList}

module _ {P Q : Type 0} (key : P) (value : Q) (s : SkipList P Q) (c : Cell P Q)
    (a : List (Cell P Q)) where
  abbrev pub updated : Cell P Q
  updated = record c { key = key; value = value }

  abbrev after_update : SkipList P Q
  after_update = set_entry (node c.id) (key, value) s

  next_at_same :
      (i : ℕ) (b : List (Cell P Q)) → next_at i (b ++ c ∷ a) ≡ next_at i (b ++ updated ∷ a)
  next_at_same i [] = refl
  next_at_same i (d ∷ b) =
      ap (λ (r : Ref). if ltb i d.tall then node d.id else r) (next_at_same i b)

  Outside-same :
      (r : Ref) (b : List (Cell P Q)) → Outside r (b ++ c ∷ a) → Outside r (b ++ updated ∷ a)
  Outside-same r [] h = h
  Outside-same r (d ∷ b) h = (h.0, Outside-same r b h.1)

  Distinct-same : (b : List (Cell P Q)) → Distinct (b ++ c ∷ a) → Distinct (b ++ updated ∷ a)
  Distinct-same [] d = d
  Distinct-same (x ∷ b) d = (Outside-same (node x.id) b d.0, Distinct-same b d.1)

  Prevs-same :
      (r : Ref) (b : List (Cell P Q))
      → Prevs s r (b ++ c ∷ a)
      → Prevs after_update r (b ++ updated ∷ a)
  unfolding set_entry
  Prevs-same r [] p = (p.0, rest c.id a p.1)
    where
      rest : (i : ℕ) (cs : List (Cell P Q)) → Prevs s (node i) cs → Prevs after_update (node i) cs
      rest i [] q = tt
      rest i (x ∷ cs) q = (q.0, rest x.id cs q.1)
  Prevs-same r (d ∷ b) p = (p.0, Prevs-same (ref_of d) b p.1)

  Known-same : (b : List (Cell P Q)) → Known s (b ++ c ∷ a) → Known after_update (b ++ updated ∷ a)
  unfolding set_entry
  Known-same [] k = (k.0, k.1, rest a k.2)
    where
      rest : (cs : List (Cell P Q)) → Known s cs → Known after_update cs
      rest [] q = tt
      rest (x ∷ cs) q = (q.0, q.1, rest cs q.2)
  Known-same (d ∷ b) k = (k.0, k.1, Known-same b k.2)

  Inner-rest : (cs : List (Cell P Q)) → Outside (node c.id) cs → Inner s cs → Inner after_update cs
  unfolding set_entry
  Inner-rest [] o h = tt
  Inner-rest (x ∷ cs) o h =
      let other : (node x.id == node c.id) ≡ false = ground (arith, o.0) in
      (
        record { links = h.0.links; holds = rw other h.0.holds; on_bottom = h.0.on_bottom },
        Inner-rest cs o.1 h.1,
      )

  Inner-same :
      (b : List (Cell P Q))
      → Distinct (b ++ c ∷ a)
      → Inner s (b ++ c ∷ a)
      → Inner after_update (b ++ updated ∷ a)
  unfolding set_entry
  Inner-same [] d h = (
    record { links = h.0.links; holds = rw (beq_refl c.id); on_bottom = h.0.on_bottom },
    Inner-rest a d.0 h.1,
  )
  Inner-same (x ∷ b) d h =
      let other : (node x.id == node c.id) ≡ false =
        (Outside-parts (node x.id) b (c ∷ a) d.0).1.0 in
      (
        record {
          links = λ i g. h.0.links i g ∙ next_at_same i b;
          holds = rw other h.0.holds;
          on_bottom = h.0.on_bottom;
        },
        Inner-same b d.1 h.1,
      )

  pub update-IsSkipList :
      ⦃e : Eq P⦄ ⦃o : PriceOrder P⦄ (b : List (Cell P Q))
      → IsSkipList s (b ++ c ∷ a)
      → Ascends (levels_of (b ++ updated ∷ a))
      → IsSkipList (set_entry (node c.id) (key, value) s) (b ++ updated ∷ a)
  update-IsSkipList b g ascends = record {
    pointers = record {
      start = λ i h. unfold set_entry in g.pointers.start i h ∙ next_at_same i b;
      inner = Inner-same b g.distinct g.pointers.inner;
      prevs = Prevs-same head b g.pointers.prevs;
      ends =
          unfold set_entry in
          g.pointers.ends
          ∙ last_at-append 0 nil b (c ∷ a)
          ∙ sym (last_at-append 0 nil b (updated ∷ a));
      no_entry = unfold set_entry in g.pointers.no_entry;
      no_prev = unfold set_entry in g.pointers.no_prev;
    };
    distinct = Distinct-same b g.distinct;
    ascends = ascends;
    known = Known-same b g.known;
    counted =
        unfold set_entry in
        omega (arith, g.counted, length-append {0} b (c ∷ a), length-append {0} b (updated ∷ a));
    some_level = unfold set_entry in g.some_level;
    level_capped = unfold set_entry in g.level_capped;
  }

module _ {P Q : Type 0} ⦃e : Eq P⦄ ⦃o : PriceOrder P⦄ where
  pub first-IsSkipList :
      (key : P) (value : Q) (s : SkipList P Q) (level flipped : ℕ)
      → s.level ≤ level
      → level ≤ max_level
      → IsSkipList s []
      → IsSkipList
          (insert_first key value (record s { flipped = flipped; level = level }))
          (record { id = s.allocated; key = key; value = value; tall = 1 } ∷ [])
  unfolding insert_first set_prev set_forward allocate
  first-IsSkipList key value s level flipped raised capped g = record {
    pointers = record {
      start = λ i h. elim (Bool-cases (i == 0)) [
        | inl lowest ↦ let low : ltb i 1 ≡ true = ground (arith, lowest) in rw (lowest, low)
        | inr higher ↦
            let high : ltb i 1 ≡ false = ground (arith, higher) in
            rw (higher, high) (g.pointers.start i h)
      ];
      inner = (
        record {
          links = λ i h. rw (beq_refl s.allocated);
          holds = rw (beq_refl s.allocated);
          on_bottom = refl;
        },
        tt,
      );
      prevs = (rw (beq_refl s.allocated), tt);
      ends = refl;
      no_entry = g.pointers.no_entry;
      no_prev = g.pointers.no_prev;
    };
    distinct = (tt, tt);
    ascends = (tt, tt);
    known = (omega arith, omega (arith, g.some_level), tt);
    counted = omega (arith, g.counted);
    some_level = omega (arith, g.some_level);
    level_capped = capped;
  }
