-- ===== src/Orderbook/SkipList/Deletion.antt =====
-- `delete` drops a level from the levels, and leaves a skip list.
use market_tick_aggregator.Prelude.{
  ℕ, ◌+◌, ◌≡◌, ◌≤◌, refl, sym, ap, ◌∙◌, subst, true, false, List, [], ◌∷◌, ◌++◌, if◌then◌else◌, ltb,
  leb, Eq, ◌==◌, nat_eq, arith, Bool-cases, inl, inr, beq_refl, beq_eq, ◌&&◌, length-append,
}
use market_tick_aggregator.Orderbook.OrderedTree.{PriceOrder, below, drop_level, Levels}
use market_tick_aggregator.Orderbook.OrderedTree.Levels.{
  drop_level-Ascends, Ascends, AllAbove, AllAbove-below, below_of_rest,
}
use market_tick_aggregator.Orderbook.SkipList.{
  SkipList, Ref, nil, head, node, ref_eq, max_level, set_prev, replace_before, unlink, delete_node,
  delete, find, has_key,
}
use market_tick_aggregator.Orderbook.SkipList.Cells.{
  Cell, levels_of, next_at, last_at, levels_of-append, Distinct, Distinct-parts, last_at-Outside,
  Outside, Within,
}
use market_tick_aggregator.Orderbook.SkipList.Chain.{Inner, Known, IsSkipList, ListOf}
use market_tick_aggregator.Orderbook.SkipList.Find.{Low, High, split_at, forward-last_at, found_at}
use market_tick_aggregator.Orderbook.SkipList.Insert.{next_at-Outside}
use market_tick_aggregator.Orderbook.SkipList.Inserting.{beq_false_sym}
use market_tick_aggregator.Orderbook.SkipList.Put.{
  Inner-parts, Known-Within, Within-parts, Within-mono, Distinct-Apart,
}
use market_tick_aggregator.Orderbook.SkipList.Unlink.{
  forward-unlink, unlink_keeps, lower_level-Within,
}
use market_tick_aggregator.Orderbook.SkipList.Delete.{Deleted, delete-Pointers, ends-delete}

module _ {P Q : Type 0} where
  replace_before_fields :
      (next last : Ref) (s : SkipList P Q)
      → ((replace_before next last s).forward ≡ s.forward)
        × ((replace_before next last s).entry ≡ s.entry)
        × ((replace_before next last s).tail
            ≡ (if next == nil then (if last == head then nil else last) else s.tail))
        × ((r : Ref)
            → (r == nil) ≡ false
            → (replace_before next last s).prev r ≡ (if r == next then last else s.prev r))
        × ((replace_before next last s).level ≡ s.level)
        × ((replace_before next last s).allocated ≡ s.allocated)
        × ((replace_before next last s).size ≡ s.size)
  unfolding replace_before set_prev
  replace_before_fields next last s = elim (Bool-cases (next == nil)) [
    | inl none_next ↦
        let end : next ≡ nil = beq_eq next nil none_next in
        rw end (refl, refl, refl, λ r h. rw h, refl, refl, refl)
    | inr some_next ↦ rw some_next (refl, refl, refl, λ r h. refl, refl, refl, refl)
  ]

  Known-delete :
      (s s' : SkipList P Q) (c : Cell P Q) (b a : List (Cell P Q))
      → s'.allocated ≡ s.allocated
      → Within s'.level (b ++ a)
      → Known s (b ++ c ∷ a)
      → Known s' (b ++ a)
  Known-delete s s' c (y ∷ b) a h w k = (omega (arith, k.0), w.0, Known-delete s s' c b a h w.1 k.2)
  Known-delete s s' c [] a h w k = rest a w k.2
    where
      rest : (cs : List (Cell P Q)) → Within s'.level cs → Known s cs → Known s' cs
      rest [] w' k' = tt
      rest (y ∷ cs) w' k' = (omega (arith, k'.0), w'.0, rest cs w'.1 k'.2)

  Within-skip :
      (m : ℕ) (c : Cell P Q) (b a : List (Cell P Q)) → Within m (b ++ c ∷ a) → Within m (b ++ a)
  Within-skip m c [] a w = w.1
  Within-skip m c (y ∷ b) a w = (w.0, Within-skip m c b a w.1)

module _ {P Q : Type 0} ⦃e : Eq P⦄ ⦃o : PriceOrder P⦄ where
  -- A node found at `c`, behind the nodes `b`.
  module _ (key : P) (s : SkipList P Q) (b : List (Cell P Q)) (c : Cell P Q) (a : List (Cell P Q))
      (u : ℕ → Ref) (g : IsSkipList s (b ++ c ∷ a)) (low : Low key b) (high : High key (c ∷ a))
      (last : (j : ℕ) → ltb j s.level ≡ true → u j ≡ last_at j head b) where
    abbrev after_delete : SkipList P Q
    after_delete = delete_node (node c.id) u s

    within : Within s.level (b ++ c ∷ a)
    within = Known-Within s (b ++ c ∷ a) g.known

    from_found : Inner s (c ∷ a)
    from_found = Inner-parts s b (c ∷ a) g.pointers.inner

    others : Distinct (b ++ a) × Outside (node c.id) b × Outside (node c.id) a
    others = Distinct-parts b c a g.distinct

    -- Below the node's height, and only there, the last node before the key points to it.
    at_node : (j : ℕ) → ltb j s.level ≡ true → (s.forward (u j) j == node c.id) ≡ ltb j c.tall
    at_node j used =
        let points =
          forward-last_at s key (c ∷ a) g.pointers.no_entry high b j head
            (g.pointers.start j (ground (arith, used, g.level_capped))) g.pointers.inner in
        rw (last j used, points)
          (elim (Bool-cases (ltb j c.tall)) [
            | inl on ↦ rw on (beq_refl (node c.id))
            | inr off ↦ rw off (
                beq_false_sym (node c.id) (next_at j a)
                  (next_at-Outside j (node c.id) a refl others.2))
          ])

    abbrev unlinked : SkipList P Q
    unlinked = unlink s.level 0 (node c.id) u s

    abbrev placed : SkipList P Q
    placed = replace_before (unlinked.forward (node c.id) 0) (u 0) unlinked

    unlinked_forward :
        (r : Ref) (j : ℕ)
        → unlinked.forward r j
          ≡ (if ltb j c.tall && (r == last_at j head b) then next_at j a else s.forward r j)
    unlinked_forward r j =
        let tall_used : c.tall ≤ s.level = (Within-parts s.level b (c ∷ a) within).1.0 in
        let closed =
          forward-unlink s.level 0 c.tall (node c.id) u s r j
            (λ k up less. at_node k (ground (arith, less))) in
        closed ∙ elim (Bool-cases (ltb j c.tall)) [
          | inl on ↦
              let used : ltb j s.level ≡ true = ground (arith, on) in
              let guard : (leb 0 j && (ltb j (0 + s.level) && ltb j c.tall)) ≡ true =
                ground (arith, on) in
              rw (guard, on, last j used, from_found.0.links j on)
          | inr off ↦
              let guard : (leb 0 j && (ltb j (0 + s.level) && ltb j c.tall)) ≡ false =
                ground (arith, off) in
              rw (guard, off)
        ]

    first_next : unlinked.forward (node c.id) 0 ≡ next_at 0 a
    first_next =
        let apart = last_at-Outside 0 (node c.id) head b refl others.1 in
        unlinked_forward (node c.id) 0
        ∙ rw (from_found.0.on_bottom, apart) (from_found.0.links 0 from_found.0.on_bottom)

    deleted : Deleted s after_delete c (λ j. last_at j head b) a
    unfolding delete_node
    deleted =
        let fields = replace_before_fields (unlinked.forward (node c.id) 0) (u 0) unlinked in
        let kept = unlink_keeps s.level 0 (node c.id) u s in
        record {
          new_forward = λ r j h. ap (λ (f : Ref → ℕ → Ref). f r j) fields.0 ∙ unlinked_forward r j;
          same_entry = fields.1 ∙ kept.0;
          new_prev =
              λ r h. fields.3 r h ∙ rw (first_next, last 0 (ground (arith, g.some_level)), kept.1);
        }

    delete-IsSkipList : Ascends (levels_of (b ++ a)) → IsSkipList after_delete (b ++ a)
    unfolding delete_node
    delete-IsSkipList ascends =
        let fields = replace_before_fields (unlinked.forward (node c.id) 0) (u 0) unlinked in
        let kept = unlink_keeps s.level 0 (node c.id) u s in
        let tail : placed.tail ≡ last_at 0 nil (b ++ a) =
          fields.2
          ∙ rw (first_next, last 0 (ground (arith, g.some_level)), kept.2, g.pointers.ends)
              (ends-delete s c b a g.pointers.inner) in
        let capped = Within-mono s.level max_level (b ++ c ∷ a) g.level_capped within in
        let parts = Within-parts max_level b (c ∷ a) capped in
        let pointers =
          delete-Pointers s after_delete c (λ j. last_at j head b) a deleted b (λ j h. refl) tail
            g.distinct (Distinct-Apart c.tall b a others.0) (Within-skip max_level c b a capped)
            parts.0 parts.1.1 from_found g.pointers in
        let same_level : placed.level ≡ s.level = fields.4 ∙ kept.3 in
        let lowered =
          lower_level-Within placed.forward placed.level (b ++ a) pointers.start
            (omega (arith, same_level, g.level_capped)) (omega (arith, same_level, g.some_level))
            (rw same_level (Within-skip s.level c b a within)) in
        record {
          pointers = pointers;
          distinct = others.0;
          ascends = ascends;
          known = Known-delete s after_delete c b a (fields.5 ∙ kept.4) lowered.0 g.known;
          counted =
              let same_size : placed.size ≡ s.size = fields.6 ∙ kept.5 in
              omega
                (arith, same_size, g.counted, length-append {0} b (c ∷ a), length-append {0} b a);
          some_level = lowered.1;
          level_capped = lowered.2;
        }

  drop_level-Low :
      (key : P) (b : List (Cell P Q)) (l : Levels P Q)
      → Low key b
      → drop_level key (levels_of b ++ l) ≡ levels_of b ++ drop_level key l
  unfolding drop_level
  drop_level-Low key [] l h = refl
  drop_level-Low key (c ∷ b) l h = elim (Bool-cases (c.key == key)) [
    | inl same ↦
        cc (
          o.below_irreflexive key,
          subst (λ (k : P). below k key ≡ true) (beq_eq c.key key same) h.0,
        )
    | inr other ↦
        rw other (ap (λ (m : Levels P Q). (c.key, c.value) ∷ m) (drop_level-Low key b l h.1))
  ]

  drop_level-AllAbove : (key : P) (l : Levels P Q) → AllAbove key l → drop_level key l ≡ l
  unfolding drop_level
  drop_level-AllAbove key [] h = refl
  drop_level-AllAbove key ((r, q) ∷ l) h = elim (Bool-cases (r == key)) [
    | inl same ↦
        cc (o.below_irreflexive key, subst (λ (k : P). below key k ≡ true) (beq_eq r key same) h.0)
    | inr other ↦ rw other (ap (λ (m : Levels P Q). (r, q) ∷ m) (drop_level-AllAbove key l h.1))
  ]

  drop_level-High :
      (key : P) (s : SkipList P Q) (a : List (Cell P Q))
      → High key a
      → Ascends (levels_of a)
      → Inner s a
      → has_key s (next_at 0 a) key ≡ false
      → drop_level key (levels_of a) ≡ levels_of a
  drop_level-High key s [] h up n k = unfold drop_level in refl
  drop_level-High key s (c ∷ a) h up n k =
      let other : (c.key == key) ≡ false = rw (n.0.on_bottom, n.0.holds) at k in
      let above = below_of_rest key c.key h.0 other in
      drop_level-AllAbove key (levels_of (c ∷ a))
        (above, AllAbove-below key c.key (levels_of a) above up.0)

  pub Ascends-suffix :
      (b a : List (Cell P Q)) → Ascends (levels_of (b ++ a)) → Ascends (levels_of a)
  Ascends-suffix [] a h = h
  Ascends-suffix (c ∷ b) a h = Ascends-suffix b a h.1

  delete_at :
      (key : P) (s : SkipList P Q) (b a : List (Cell P Q))
      → IsSkipList s (b ++ a)
      → Low key b
      → High key a
      → ListOf (delete key s).0 (drop_level key (levels_of (b ++ a)))
  unfolding delete
  delete_at key s b [] g low high =
      let (at_next, last) = found_at s key b [] g low high in
      let dropped =
        ap (drop_level key) (levels_of-append b [])
        ∙ drop_level-Low key b [] low
        ∙ ap (λ (l : Levels P Q). levels_of b ++ l)
            (drop_level-High key s [] tt tt tt (rw g.pointers.no_entry))
        ∙ sym (levels_of-append b []) in
      rw (at_next, g.pointers.no_entry) (b ++ [], g, sym dropped)
  delete_at key s b (c ∷ a) g low high =
      let (at_next, last) = found_at s key b (c ∷ a) g low high in
      let inner = Inner-parts s b (c ∷ a) g.pointers.inner in
      let split =
        ap (drop_level key) (levels_of-append b (c ∷ a))
        ∙ drop_level-Low key b (levels_of (c ∷ a)) low in
      let drops = drop_level-Ascends key (levels_of (b ++ c ∷ a)) g.ascends in
      elim (Bool-cases (c.key == key)) [
        | inl same ↦
            let rest : drop_level key (levels_of (c ∷ a)) ≡ levels_of a =
              unfold drop_level in rw same in
            let whole =
              split ∙ ap (λ (l : Levels P Q). levels_of b ++ l) rest ∙ sym (levels_of-append b a) in
            rw (at_next, inner.0.on_bottom, inner.0.holds, same)
              (
                b ++ a,
                delete-IsSkipList key s b c a (find s key).1 g low high last
                    (subst Ascends whole drops),
                sym whole,
              )
        | inr other ↦
            let absent : has_key s (next_at 0 (c ∷ a)) key ≡ false =
              rw (inner.0.on_bottom, inner.0.holds) other in
            let kept =
              split
              ∙ ap (λ (l : Levels P Q). levels_of b ++ l)
                  (drop_level-High key s (c ∷ a) high (Ascends-suffix b (c ∷ a) g.ascends) inner
                    absent)
              ∙ sym (levels_of-append b (c ∷ a)) in
            rw (at_next, absent) (b ++ c ∷ a, g, sym kept)
      ]

  -- `delete` on a skip list leaves a skip list, whose levels are the old ones without the key's.
  pub delete-ListOf :
      (key : P) (s : SkipList P Q) (cs : List (Cell P Q))
      → IsSkipList s cs
      → ListOf (delete key s).0 (drop_level key (levels_of cs))
  delete-ListOf key s cs g =
      let (b, a, whole, low, high) = split_at s key cs g.ascends in
      subst (λ (ds : List (Cell P Q)). ListOf (delete key s).0 (drop_level key (levels_of ds)))
        whole (delete_at key s b a (subst (IsSkipList s) (sym whole) g) low high)
