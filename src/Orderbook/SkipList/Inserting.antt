-- ===== src/Orderbook/SkipList/Inserting.antt =====
-- `insert`: what it does to the pointers, and the levels that it leaves.
use market_tick_aggregator.Prelude.{
  ℕ, ◌+◌, ◌≡◌, refl, sym, ap, ◌∙◌, Bool, true, false, Option, if◌then◌else◌, ltb, Eq, ◌==◌, nat_eq,
  Bool-cases, inl, inr, beq_refl, beq_eq, ◌&&◌,
}
use market_tick_aggregator.Orderbook.OrderedTree.{PriceOrder}
use market_tick_aggregator.Orderbook.SkipList.{
  SkipList, Ref, nil, node, ref_eq, allocate, set_prev, link, insert_between, place_before,
}
use market_tick_aggregator.Orderbook.SkipList.Cells.{Cell}
use market_tick_aggregator.Orderbook.SkipList.Link.{forward-link, link_keeps}
use market_tick_aggregator.Orderbook.SkipList.Insert.{Inserted}

if_nested :
    (c d : Bool) (x y : Ref) → (if c then (if d then x else y) else y) ≡ (if c && d then x else y)
if_nested true d x y = refl
if_nested false d x y = refl

pub beq_false_sym : (a b : Ref) → (a == b) ≡ false → (b == a) ≡ false
beq_false_sym a b h = elim (Bool-cases (b == a)) [
  | inl same ↦ cc (h, (ref_eq.sound a b).1 (sym (beq_eq b a same)))
  | inr other ↦ other
]

module _ {P Q : Type 0} where
  place_before_fields :
      (next new : Ref) (s : SkipList P Q)
      → ((place_before next new s).forward ≡ s.forward)
        × ((place_before next new s).entry ≡ s.entry)
        × ((place_before next new s).tail ≡ (if next == nil then new else s.tail))
        × ((r : Ref)
            → (r == nil) ≡ false
            → (place_before next new s).prev r ≡ (if r == next then new else s.prev r))
        × ((place_before next new s).level ≡ s.level)
        × ((place_before next new s).allocated ≡ s.allocated)
  unfolding place_before set_prev
  place_before_fields next new s = elim (Bool-cases (next == nil)) [
    | inl none_next ↦
        let end : next ≡ nil = beq_eq next nil none_next in
        rw end (refl, refl, refl, λ r h. rw h, refl, refl)
    | inr some_next ↦ rw some_next (refl, refl, refl, λ r h. refl, refl, refl)
  ]

module _ {P Q : Type 0} ⦃e : Eq P⦄ ⦃o : PriceOrder P⦄ (key : P) (value : Q) (lvl : ℕ) (u : ℕ → Ref)
    (t : SkipList P Q) where
  abbrev pub new_cell : Cell P Q
  new_cell = record { id = t.allocated; key = key; value = value; tall = lvl }

  abbrev new : Ref
  new = node t.allocated

  -- The pointers after an insertion behind the nodes of `u`.
  pub insert_between-Inserted :
      ((j : ℕ) → ltb j lvl ≡ true → (u j == new) ≡ false)
      → ltb 0 lvl ≡ true
      → Inserted t (insert_between key value lvl u t) new_cell u (t.forward (u 0) 0)
  unfolding insert_between set_prev allocate
  insert_between-Inserted apart bottom =
      let a = allocate (key, value) t in
      let linked = link lvl new u a in
      let kept = link_keeps lvl new u a in
      let placed = place_before_fields (a.forward (u 0) 0) new linked in
      let first : a.forward (u 0) 0 ≡ t.forward (u 0) 0 = rw (apart 0 bottom) in
      record {
        old_forward = λ r j old.
            ap (λ (f : Ref → ℕ → Ref). f r j) placed.0
            ∙ forward-link lvl new u a r j
            ∙ rw old (if_nested (ltb j lvl) (r == u j) new (t.forward r j));
        new_forward = λ j on.
            ap (λ (f : Ref → ℕ → Ref). f new j) placed.0
            ∙ forward-link lvl new u a new j
            ∙ rw (on, beq_false_sym (u j) new (apart j on), beq_refl new, apart j on);
        old_entry = λ r old. ap (λ (f : Ref → Option (P × Q)). f r) (placed.1 ∙ kept.0) ∙ rw old;
        new_entry =
            ap (λ (f : Ref → Option (P × Q)). f new) (placed.1 ∙ kept.0) ∙ rw (beq_refl new);
        old_prev = λ r old there. rw old (
            placed.3 r there
            ∙ ap (λ (f : Ref → Ref). if r == a.forward (u 0) 0 then new else f r) kept.1
            ∙ rw (old, apart 0 bottom));
        new_prev = rw (beq_refl new);
      }

  -- and the other fields
  pub insert_between_fields :
      (u 0 == new) ≡ false
      → ((insert_between key value lvl u t).tail
          ≡ (if t.forward (u 0) 0 == nil then new else t.tail))
        × ((insert_between key value lvl u t).level ≡ t.level)
        × ((insert_between key value lvl u t).allocated ≡ t.allocated + 1)
        × ((insert_between key value lvl u t).size ≡ t.size + 1)
  unfolding insert_between set_prev allocate
  insert_between_fields apart =
      let a = allocate (key, value) t in
      let kept = link_keeps lvl new u a in
      let placed = place_before_fields (a.forward (u 0) 0) new (link lvl new u a) in
      (
        placed.2 ∙ ap (λ (r : Ref). if a.forward (u 0) 0 == nil then new else r) kept.2 ∙ rw apart,
        placed.4 ∙ kept.3,
        placed.5 ∙ kept.4,
        refl,
      )
