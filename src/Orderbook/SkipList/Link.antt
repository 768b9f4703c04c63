-- ===== src/Orderbook/SkipList/Link.antt =====
-- A new node among the others: what the pointers are after it was linked.
use market_tick_aggregator.Prelude.{
  ℕ, zero, suc, ◌≡◌, refl, ◌∙◌, true, false, if◌then◌else◌, ltb, ◌==◌, nat_eq, arith, Bool-cases,
  inl, inr, beq_refl, beq_eq,
}
use market_tick_aggregator.Orderbook.SkipList.{SkipList, Ref, ref_eq, set_forward, link}

module _ {P Q : Type 0} where
  put_behind :
      (i : ℕ) (new u : Ref) (s : SkipList P Q) (r : Ref) (j : ℕ)
      → (set_forward u i new (set_forward new i (s.forward u i) s)).forward r j ≡ (
          if j == i
          then (if r == u then new else if r == new then s.forward u i else s.forward r j)
          else s.forward r j)
  unfolding set_forward
  put_behind i new u s r j = elim (Bool-cases (j == i)) [
    | inl same ↦ elim (Bool-cases (r == u)) [
      | inl here ↦ rw (same, here)
      | inr there ↦ elim (Bool-cases (r == new)) [
        | inl fresh ↦ rw (same, there, fresh)
        | inr old ↦ rw (same, there, old)
      ]
    ]
    | inr other ↦ elim (Bool-cases (r == u)) [
      | inl here ↦ elim (Bool-cases (r == new)) [
        | inl fresh ↦ rw (other, here, fresh)
        | inr old ↦ rw (other, here, old)
      ]
      | inr there ↦ elim (Bool-cases (r == new)) [
        | inl fresh ↦ rw (other, there, fresh)
        | inr old ↦ rw (other, there, old)
      ]
    ]
  ]

  -- The loop changes, on each level, the pointers of the new node and of the one before it.
  pub forward-link :
      (lvl : ℕ) (new : Ref) (update : ℕ → Ref) (s : SkipList P Q) (r : Ref) (j : ℕ)
      → (link lvl new update s).forward r j ≡ (
          if ltb j lvl
          then (if r == update j
              then new
              else if r == new
              then s.forward (update j) j
              else s.forward r j)
          else s.forward r j)
  unfolding link
  forward-link zero new update s r j = ground arith
  forward-link (suc i) new update s r j =
      put_behind i new (update i) (link i new update s) r j ∙ elim (Bool-cases (j == i)) [
        | inl same ↦
            let at_i : j ≡ i = beq_eq j i same in
            let last : ltb i (suc i) ≡ true = ground arith in
            let above : ltb i i ≡ false = ground arith in
            let untouched : (q : Ref) → (link i new update s).forward q i ≡ s.forward q i =
              λ q. rw above at (forward-link i new update s q i) in
            rw (at_i, beq_refl i, last, untouched (update i), untouched r)
        | inr other ↦
            let same_side : ltb j (suc i) ≡ ltb j i = ground (arith, other) in
            rw (other, same_side) (forward-link i new update s r j)
      ]

  -- and no other field
  pub link_keeps :
      (lvl : ℕ) (new : Ref) (update : ℕ → Ref) (s : SkipList P Q)
      → ((link lvl new update s).entry ≡ s.entry)
        × ((link lvl new update s).prev ≡ s.prev)
        × ((link lvl new update s).tail ≡ s.tail)
        × ((link lvl new update s).level ≡ s.level)
        × ((link lvl new update s).allocated ≡ s.allocated)
  unfolding link set_forward
  link_keeps zero new update s = (refl, refl, refl, refl, refl)
  link_keeps (suc i) new update s = link_keeps i new update s
