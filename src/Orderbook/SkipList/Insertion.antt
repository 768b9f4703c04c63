-- ===== src/Orderbook/SkipList/Insertion.antt =====
-- `insert` puts a level among the levels, and leaves a skip list.
use market_tick_aggregator.Prelude.{
  ℕ, zero, suc, ◌+◌, ◌-◌, ◌≡◌, ◌≤◌, refl, sym, ap, ◌∙◌, subst, Bool, true, false, List, [], ◌∷◌,
  ◌++◌, if◌then◌else◌, ltb, Eq, ◌==◌, nat_eq, arith, Bool-cases, inl, inr, ◌&&◌, not,
}
use market_tick_aggregator.Orderbook.OrderedTree.{PriceOrder, put_level, Levels}
use market_tick_aggregator.Orderbook.OrderedTree.Levels.{put_level-Ascends, Ascends}
use market_tick_aggregator.Orderbook.SkipList.{
  SkipList, Ref, head, node, ref_eq, max_level, set_entry, insert_first, insert_between, insert,
  find, has_key, random_level, flip_levels,
}
use market_tick_aggregator.Orderbook.SkipList.Cells.{
  Cell, levels_of, next_at, last_at, levels_of-append, last_at_above,
}
use market_tick_aggregator.Orderbook.SkipList.Chain.{IsSkipList, ListOf}
use market_tick_aggregator.Orderbook.SkipList.Find.{Low, High, split_at, found_at}
use market_tick_aggregator.Orderbook.SkipList.Put.{
  put_level-Low, put_level-High, between-IsSkipList, Inner-parts, Known-Within, Within-parts,
}
use market_tick_aggregator.Orderbook.SkipList.Update.{updated, update-IsSkipList, first-IsSkipList}

flip_levels_bounds :
    (left : ℕ) (flips : ℕ → Bool) (at lvl : ℕ)
    → (lvl ≤ (flip_levels left flips at lvl).0) × ((flip_levels left flips at lvl).0 ≤ lvl + left)
unfolding flip_levels
flip_levels_bounds zero flips at lvl = (omega arith, omega arith)
flip_levels_bounds (suc left) flips at lvl =
    ground (arith, flip_levels_bounds left flips (at + 1) (lvl + 1))

pub random_level_bounds :
    (flips : ℕ → Bool) (at : ℕ)
    → (1 ≤ (random_level flips at).0) × ((random_level flips at).0 ≤ max_level)
unfolding random_level
random_level_bounds flips at = omega (arith, flip_levels_bounds (max_level - 1) flips at 1)

module _ {P Q : Type 0} ⦃e : Eq P⦄ ⦃o : PriceOrder P⦄ (key : P) (value : Q) (s : SkipList P Q) where
  levels_after :
      (b a : List (Cell P Q)) (n : Cell P Q) (l : Levels P Q)
      → levels_of (n ∷ a) ≡ put_level key value l
      → Low key b
      → levels_of (b ++ n ∷ a) ≡ put_level key value (levels_of b ++ l)
  levels_after b a n l h low =
      levels_of-append b (n ∷ a)
      ∙ ap (λ (m : Levels P Q). levels_of b ++ m) h
      ∙ sym (put_level-Low key value b l low)

  update_found :
      (b : List (Cell P Q)) (c : Cell P Q) (a : List (Cell P Q))
      → IsSkipList s (b ++ c ∷ a)
      → Low key b
      → High key (c ∷ a)
      → (c.key == key) ≡ true
      → ListOf (set_entry (node c.id) (key, value) s) (put_level key value (levels_of (b ++ c ∷ a)))
  update_found b c a g low high same =
      let here : levels_of (updated key value s c a ∷ a) ≡ put_level key value (levels_of (c ∷ a)) =
        unfold put_level in rw (high.0, same) in
      let whole =
        levels_after b a (updated key value s c a) (levels_of (c ∷ a)) here low
        ∙ ap (put_level key value) (sym (levels_of-append b (c ∷ a))) in
      let rises = put_level-Ascends key value (levels_of (b ++ c ∷ a)) g.ascends in
      (
        b ++ updated key value s c a ∷ a,
        update-IsSkipList key value s c a b g (subst Ascends (sym whole) rises),
        whole,
      )

  replace :
      (b a : List (Cell P Q))
      → IsSkipList s (b ++ a)
      → Low key b
      → High key a
      → has_key s (next_at 0 a) key ≡ true
      → ListOf (set_entry (next_at 0 a) (key, value) s) (put_level key value (levels_of (b ++ a)))
  replace b [] g low high there = cc (rw g.pointers.no_entry at there)
  replace b (c ∷ a) g low high there =
      let inner = Inner-parts s b (c ∷ a) g.pointers.inner in
      let same : (c.key == key) ≡ true = rw (inner.0.on_bottom, inner.0.holds) at there in
      rw inner.0.on_bottom (update_found b c a g low high same)

  first_node :
      (b a : List (Cell P Q)) (level flipped : ℕ)
      → IsSkipList s (b ++ a)
      → (s.size == 0) ≡ true
      → s.level ≤ level
      → level ≤ max_level
      → ListOf
          (insert_first key value (record s { flipped = flipped; level = level }))
          (put_level key value (levels_of (b ++ a)))
  unfolding put_level
  first_node [] [] level flipped g empty raised capped = (
    record { id = s.allocated; key = key; value = value; tall = 1 } ∷ [],
    first-IsSkipList key value s level flipped raised capped g,
    refl,
  )
  first_node [] (c ∷ a) level flipped g empty raised capped =
      absurd (ground (arith, g.counted, empty))
  first_node (c ∷ b) a level flipped g empty raised capped =
      absurd (ground (arith, g.counted, empty))

  -- `update`, after the levels that a node adds
  abbrev raised_update : ℕ → (ℕ → Ref) → ℕ → Ref
  raised_update lvl u j = if not (ltb j s.level) && ltb j lvl then head else u j

  raised_update-last_at :
      (b a : List (Cell P Q)) (lvl : ℕ) (u : ℕ → Ref)
      → IsSkipList s (b ++ a)
      → ((j : ℕ) → ltb j s.level ≡ true → u j ≡ last_at j head b)
      → (j : ℕ) → ltb j lvl ≡ true
      → raised_update lvl u j ≡ last_at j head b
  raised_update-last_at b a lvl u g last j on = elim (Bool-cases (ltb j s.level)) [
    | inl old ↦ rw old (last j old)
    | inr new ↦
        let within = (Within-parts s.level b a (Known-Within s (b ++ a) g.known)).0 in
        rw (new, on) (sym (last_at_above j s.level head b within (ground (arith, new))))
  ]

  between_nodes :
      (b a : List (Cell P Q)) (lvl level flipped : ℕ) (u : ℕ → Ref)
      → IsSkipList s (b ++ a)
      → Low key b
      → High key a
      → has_key s (next_at 0 a) key ≡ false
      → ((j : ℕ) → ltb j lvl ≡ true → u j ≡ last_at j head b)
      → 1 ≤ lvl
      → s.level ≤ level
      → lvl ≤ level
      → level ≤ max_level
      → ListOf
          (insert_between key value lvl u (record s { flipped = flipped; level = level }))
          (put_level key value (levels_of (b ++ a)))
  between_nodes b a lvl level flipped u g low high other last pos raised enough capped =
      let n : Cell P Q = record { id = s.allocated; key = key; value = value; tall = lvl } in
      let here = put_level-High key value s a high (Inner-parts s b a g.pointers.inner) other in
      let whole =
        levels_after b a n (levels_of a) (sym here) low
        ∙ ap (put_level key value) (sym (levels_of-append b a)) in
      let rises = put_level-Ascends key value (levels_of (b ++ a)) g.ascends in
      (
        b ++ n ∷ a,
        between-IsSkipList key value s b a lvl level flipped u g low high last (ground (arith, pos))
            raised enough capped (subst Ascends (sym whole) rises),
        whole,
      )

  add_node :
      (b a : List (Cell P Q)) (lvl flipped : ℕ) (u : ℕ → Ref)
      → IsSkipList s (b ++ a)
      → Low key b
      → High key a
      → has_key s (next_at 0 a) key ≡ false
      → ((j : ℕ) → ltb j s.level ≡ true → u j ≡ last_at j head b)
      → 1 ≤ lvl
      → lvl ≤ max_level
      → ListOf
          (let s' = record s {
            flipped = flipped;
            level = if ltb s.level lvl then lvl else s.level;
          } in
            if s.size == 0
            then insert_first key value s'
            else insert_between key value lvl (raised_update lvl u) s')
          (put_level key value (levels_of (b ++ a)))
  add_node b a lvl flipped u g low high other last pos capped =
      let level : ℕ = if ltb s.level lvl then lvl else s.level in
      let raised : s.level ≤ level = ground arith in
      let enough : lvl ≤ level = ground arith in
      let within : level ≤ max_level = ground (arith, g.level_capped) in
      elim (Bool-cases (s.size == 0)) [
        | inl empty ↦ rw empty (first_node b a level flipped g empty raised within)
        | inr some_node ↦ rw some_node (
            between_nodes b a lvl level flipped (raised_update lvl u) g low high other
              (raised_update-last_at b a lvl u g last) pos raised enough within)
      ]

  -- What is stored at the place of the key.
  insert_at :
      (b a : List (Cell P Q))
      → IsSkipList s (b ++ a)
      → Low key b
      → High key a
      → ListOf (insert key value s).0 (put_level key value (levels_of (b ++ a)))
  unfolding insert
  insert_at b a g low high =
      let (at_next, last) = found_at s key b a g low high in
      elim (Bool-cases (has_key s (next_at 0 a) key)) [
        | inl there ↦ rw (at_next, there) (replace b a g low high there)
        | inr absent ↦
            let bounds = random_level_bounds s.flips s.flipped in
            rw (at_next, absent)
              (add_node b a (random_level s.flips s.flipped).0 (random_level s.flips s.flipped).1
                (find s key).1 g low high absent last bounds.0 bounds.1)
      ]

  -- `insert` into a skip list leaves a skip list, whose levels are the old ones with this one put at
  -- its place, whatever the coins give.
  pub insert-ListOf :
      (cs : List (Cell P Q))
      → IsSkipList s cs
      → ListOf (insert key value s).0 (put_level key value (levels_of cs))
  insert-ListOf cs g =
      let (b, a, whole, low, high) = split_at s key cs g.ascends in
      subst
        (λ (ds : List (Cell P Q)).
          ListOf (insert key value s).0 (put_level key value (levels_of ds)))
        whole (insert_at b a (subst (IsSkipList s) (sym whole) g) low high)
