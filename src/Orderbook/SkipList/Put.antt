-- ===== src/Orderbook/SkipList/Put.antt =====
-- `insert` puts a level among the levels, and leaves a skip list.
use market_tick_aggregator.Prelude.{
  ℕ, ◌≡◌, ◌≤◌, ◌<◌, refl, sym, ap, ◌∙◌, true, false, List, [], ◌∷◌, ◌++◌, if◌then◌else◌, ltb, Eq,
  ◌==◌, nat_eq, arith, Bool-cases, inl, inr, length-append,
}
use market_tick_aggregator.Orderbook.OrderedTree.{PriceOrder, put_level, Levels}
use market_tick_aggregator.Orderbook.OrderedTree.Levels.{Ascends}
use market_tick_aggregator.Orderbook.SkipList.{
  SkipList, Ref, nil, head, node, ref_eq, max_level, insert_between, has_key,
}
use market_tick_aggregator.Orderbook.SkipList.Cells.{
  Cell, levels_of, next_at, last_at, Outside, Distinct, Within, last_at-Outside, Outside-parts,
  Distinct-parts, last_at-append, Outside-head, Outside-append,
}
use market_tick_aggregator.Orderbook.SkipList.Chain.{Inner, Known, IsSkipList}
use market_tick_aggregator.Orderbook.SkipList.Find.{Low, High, forward-last_at}
use market_tick_aggregator.Orderbook.SkipList.Insert.{Inserted, insert-Pointers, Apart, Fresh}
use market_tick_aggregator.Orderbook.SkipList.Inserting.{
  insert_between-Inserted, insert_between_fields, new_cell, beq_false_sym,
}

module _ {P Q : Type 0} where
  -- The parts of what is known of the nodes.
  pub Known-Within : (s : SkipList P Q) (cs : List (Cell P Q)) → Known s cs → Within s.level cs
  Known-Within s [] k = tt
  Known-Within s (c ∷ cs) k = (k.1, Known-Within s cs k.2)

  pub Within-mono : (m n : ℕ) (cs : List (Cell P Q)) → m ≤ n → Within m cs → Within n cs
  Within-mono m n [] h w = tt
  Within-mono m n (c ∷ cs) h w = (omega arith, Within-mono m n cs h w.1)

  pub Within-parts : (m : ℕ) (b a : List (Cell P Q)) → Within m (b ++ a) → Within m b × Within m a
  Within-parts m [] a w = (tt, w)
  Within-parts m (c ∷ b) a w = let rest = Within-parts m b a w.1 in ((w.0, rest.0), rest.1)

  pub Inner-parts : (s : SkipList P Q) (b a : List (Cell P Q)) → Inner s (b ++ a) → Inner s a
  Inner-parts s [] a h = h
  Inner-parts s (c ∷ b) a h = Inner-parts s b a h.1

  Known-Fresh :
      (s : SkipList P Q) (n : Cell P Q) (cs : List (Cell P Q))
      → n.id ≡ s.allocated
      → Known s cs
      → Fresh n cs
  Known-Fresh s n [] h k = tt
  Known-Fresh s n (c ∷ cs) h k = (ground (arith, k.0), Known-Fresh s n cs h k.2)

  Fresh-parts : (n : Cell P Q) (b a : List (Cell P Q)) → Fresh n (b ++ a) → Fresh n b × Fresh n a
  Fresh-parts n [] a f = (tt, f)
  Fresh-parts n (c ∷ b) a f = let rest = Fresh-parts n b a f.1 in ((f.0, rest.0), rest.1)

  Fresh-Outside : (n : Cell P Q) (cs : List (Cell P Q)) → Fresh n cs → Outside (node n.id) cs
  Fresh-Outside n [] f = tt
  Fresh-Outside n (c ∷ cs) f = (ground (arith, f.0), Fresh-Outside n cs f.1)

  Known-insert :
      (s s' : SkipList P Q) (n : Cell P Q) (b a : List (Cell P Q))
      → s.allocated ≤ s'.allocated
      → s.level ≤ s'.level
      → n.id < s'.allocated
      → n.tall ≤ s'.level
      → Known s (b ++ a)
      → Known s' (b ++ n ∷ a)
  Known-insert s s' n (c ∷ b) a h l i t k =
      (omega (arith, k.0), omega (arith, k.1), Known-insert s s' n b a h l i t k.2)
  Known-insert s s' n [] a h l i t k = (i, t, later a k)
    where
      later : (cs : List (Cell P Q)) → Known s cs → Known s' cs
      later [] k' = tt
      later (c ∷ cs) k' = (omega (arith, k'.0), omega (arith, k'.1), later cs k'.2)

  Distinct-insert :
      (n : Cell P Q) (b a : List (Cell P Q))
      → Fresh n (b ++ a)
      → Distinct (b ++ a)
      → Distinct (b ++ n ∷ a)
  Distinct-insert n [] a f d = (Fresh-Outside n a f, d)
  Distinct-insert n (c ∷ b) a f d =
      let (front, back) = Outside-parts (node c.id) b a d.0 in
      (Outside-append (node c.id) b (n ∷ a) front (f.0, back), Distinct-insert n b a f.1 d.1)

  pub Distinct-Apart :
      (lvl : ℕ) (b a : List (Cell P Q)) → Distinct (b ++ a) → Apart lvl (λ j. last_at j head b) a
  Distinct-Apart lvl b [] d = tt
  Distinct-Apart lvl b (c ∷ a) d =
      let parts = Distinct-parts b c a d in
      (λ j h. last_at-Outside j (node c.id) head b refl parts.1, Distinct-Apart lvl b a parts.0)

  last_at_nonempty :
      (s : SkipList P Q) (r q : Ref) (cs : List (Cell P Q)) (c : Cell P Q)
      → Inner s (c ∷ cs)
      → last_at 0 r (c ∷ cs) ≡ last_at 0 q (c ∷ cs)
  last_at_nonempty s r q cs c h = rw h.0.on_bottom

  ends-insert :
      (s : SkipList P Q) (n : Cell P Q) (b a : List (Cell P Q))
      → ltb 0 n.tall ≡ true
      → Inner s a
      → (if next_at 0 a == nil then node n.id else last_at 0 nil (b ++ a))
        ≡ last_at 0 nil (b ++ n ∷ a)
  ends-insert s n b [] bottom h = sym (last_at-append 0 nil b (n ∷ []) ∙ rw bottom)
  ends-insert s n b (c ∷ a) bottom h = rw h.0.on_bottom (
      last_at-append 0 nil b (c ∷ a)
      ∙ rw h.0.on_bottom (sym (last_at-append 0 nil b (n ∷ c ∷ a) ∙ rw h.0.on_bottom)))

module _ {P Q : Type 0} ⦃e : Eq P⦄ ⦃o : PriceOrder P⦄ where
  pub put_level-Low :
      (key : P) (value : Q) (b : List (Cell P Q)) (l : Levels P Q)
      → Low key b
      → put_level key value (levels_of b ++ l) ≡ levels_of b ++ put_level key value l
  unfolding put_level
  put_level-Low key value [] l h = refl
  put_level-Low key value (c ∷ b) l h =
      rw h.0 (ap (λ (m : Levels P Q). (c.key, c.value) ∷ m) (put_level-Low key value b l h.1))

  pub put_level-High :
      (key : P) (value : Q) (s : SkipList P Q) (a : List (Cell P Q))
      → High key a
      → Inner s a
      → has_key s (next_at 0 a) key ≡ false
      → put_level key value (levels_of a) ≡ (key, value) ∷ levels_of a
  unfolding put_level
  put_level-High key value s [] h n k = refl
  put_level-High key value s (c ∷ a) h n k =
      let other : (c.key == key) ≡ false = rw (n.0.on_bottom, n.0.holds) at k in rw (h.0, other)

  -- A node that is new, at the levels `lvl`, and a level of the list that is not lower.
  module _ (key : P) (value : Q) (s : SkipList P Q) (b a : List (Cell P Q)) (lvl level flipped : ℕ)
      (u : ℕ → Ref) (g : IsSkipList s (b ++ a)) (low : Low key b) (high : High key a)
      (last : (j : ℕ) → ltb j lvl ≡ true → u j ≡ last_at j head b) (bottom : ltb 0 lvl ≡ true)
      (raised : s.level ≤ level) (enough : lvl ≤ level) (capped : level ≤ max_level) where
    abbrev pub before_insert : SkipList P Q
    before_insert = record s { flipped = flipped; level = level }

    abbrev pub after_insert : SkipList P Q
    after_insert = insert_between key value lvl u before_insert

    abbrev pub inserted_cell : Cell P Q
    inserted_cell = new_cell key value lvl u before_insert

    unused_id : Fresh inserted_cell (b ++ a)
    unused_id = Known-Fresh s inserted_cell (b ++ a) refl g.known

    new_apart : (j : ℕ) → ltb j lvl ≡ true → (u j == node s.allocated) ≡ false
    new_apart j on = rw (last j on) (
        beq_false_sym (node s.allocated) (last_at j head b) (
          last_at-Outside j (node s.allocated) head b refl
            (Fresh-Outside inserted_cell b (Fresh-parts inserted_cell b a unused_id).0)))

    nexts : (j : ℕ) → ltb j lvl ≡ true → s.forward (last_at j head b) j ≡ next_at j a
    nexts j on =
        forward-last_at s key a g.pointers.no_entry high b j head
          (g.pointers.start j (ground (arith, on))) g.pointers.inner

    first_after : s.forward (u 0) 0 ≡ next_at 0 a
    first_after = ap (λ (r : Ref). s.forward r 0) (last 0 bottom) ∙ nexts 0 bottom

    inserted : Inserted s after_insert inserted_cell (λ j. last_at j head b) (next_at 0 a)
    inserted =
        let x = insert_between-Inserted key value lvl u before_insert new_apart bottom in
        record {
          old_forward = λ r j old.
              x.old_forward r j old
              ∙ elim (Bool-cases (ltb j lvl)) [ inl on ↦ rw (on, last j on) | inr off ↦ rw off ];
          new_forward = λ j on. x.new_forward j on ∙ ap (λ (r : Ref). s.forward r j) (last j on);
          old_entry = x.old_entry;
          new_entry = x.new_entry;
          old_prev = λ r old there. (rw first_after at (x.old_prev r old there));
          new_prev = x.new_prev ∙ last 0 bottom;
        }

    pub between-IsSkipList :
        Ascends (levels_of (b ++ inserted_cell ∷ a))
        → IsSkipList after_insert (b ++ inserted_cell ∷ a)
    between-IsSkipList ascends =
        let fields = insert_between_fields key value lvl u before_insert (new_apart 0 bottom) in
        record {
          pointers =
              insert-Pointers s after_insert inserted_cell (λ j. last_at j head b) a inserted b
                (λ j h. refl) nexts bottom
                (fields.0
                  ∙ rw (first_after, g.pointers.ends)
                      (ends-insert s inserted_cell b a bottom (Inner-parts s b a g.pointers.inner)))
                g.distinct unused_id (Fresh-parts inserted_cell b a unused_id).1
                (Distinct-Apart lvl b a g.distinct) (Outside-head b)
                (Within-mono s.level max_level b g.level_capped
                  (Within-parts s.level b a (Known-Within s (b ++ a) g.known)).0)
                (Inner-parts s b a g.pointers.inner) g.pointers;
          distinct = Distinct-insert inserted_cell b a unused_id g.distinct;
          ascends = ascends;
          known =
              Known-insert s after_insert inserted_cell b a (omega (arith, fields.2))
                (omega (arith, fields.1)) (omega (arith, fields.2)) (omega (arith, fields.1))
                g.known;
          counted = omega (
            arith,
            fields.3,
            g.counted,
            length-append {0} b a,
            length-append {0} b (inserted_cell ∷ a),
          );
          some_level = omega (arith, fields.1, g.some_level);
          level_capped = omega (arith, fields.1);
        }
