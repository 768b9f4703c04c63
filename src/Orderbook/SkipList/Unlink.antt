-- ===== src/Orderbook/SkipList/Unlink.antt =====
-- The pointers after a node was unlinked, and the level that is left.
use market_tick_aggregator.Prelude.{
  ℕ, zero, suc, ◌+◌, ◌≡◌, ◌≤◌, refl, ap, ◌∙◌, true, false, List, [], ◌∷◌, if◌then◌else◌, ltb, leb,
  ◌==◌, nat_eq, arith, Bool-cases, inl, inr, beq_refl, beq_eq, ◌&&◌,
}
use market_tick_aggregator.Orderbook.SkipList.{
  SkipList, Ref, nil, head, ref_eq, max_level, set_forward, unlink, lower_level,
}
use market_tick_aggregator.Orderbook.SkipList.Cells.{Cell, next_at, Within}

module _ {P Q : Type 0} where
  forward-set_forward :
      (q : Ref) (i : ℕ) (v : Ref) (s : SkipList P Q) (r : Ref) (j : ℕ)
      → (set_forward q i v s).forward r j ≡ (if (r == q) && (j == i) then v else s.forward r j)
  unfolding set_forward
  forward-set_forward q i v s r j = refl

  set_forward_other :
      (q : Ref) (i : ℕ) (v : Ref) (s : SkipList P Q) (r : Ref) (j : ℕ)
      → (j == i) ≡ false
      → (set_forward q i v s).forward r j ≡ s.forward r j
  set_forward_other q i v s r j h =
      forward-set_forward q i v s r j
      ∙ elim (Bool-cases (r == q)) [ inl same ↦ rw (same, h) | inr other ↦ rw other ]

  skipped :
      (i : ℕ) (found : Ref) (u : ℕ → Ref) (s : SkipList P Q) (r : Ref) (j : ℕ)
      → j ≡ i
      → (set_forward (u i) i (s.forward found i) s).forward r j
        ≡ (if r == u j then s.forward found j else s.forward r j)
  skipped i found u s r j at_i = rw at_i (
      forward-set_forward (u i) i (s.forward found i) s r i
      ∙ elim (Bool-cases (r == u i)) [ inl same ↦ rw (same, beq_refl i) | inr other ↦ rw other ])

  -- From level `i` on, each level below `tall` skips the node found.
  pub forward-unlink :
      (left i tall : ℕ) (found : Ref) (u : ℕ → Ref) (s : SkipList P Q) (r : Ref) (j : ℕ)
      → ((k : ℕ)
          → leb i k ≡ true
          → ltb k (i + left) ≡ true
          → (s.forward (u k) k == found) ≡ ltb k tall)
      → (unlink left i found u s).forward r j ≡ (
          if (leb i j && (ltb j (i + left) && ltb j tall)) && (r == u j)
          then s.forward found j
          else s.forward r j)
  unfolding unlink
  forward-unlink zero i tall found u s r j h =
      let never : (leb i j && (ltb j (i + 0) && ltb j tall)) ≡ false = ground arith in rw never
  forward-unlink (suc left) i tall found u s r j h =
      let here = h i (ground arith) (ground arith) in
      elim (Bool-cases (ltb i tall)) [
        | inr above ↦
            let never : (leb i j && (ltb j (i + suc left) && ltb j tall)) ≡ false =
              ground (arith, above) in
            rw (here, above, never)
        | inl on ↦
            let s' = set_forward (u i) i (s.forward found i) s in
            let others =
              λ (k : ℕ) (more : leb (i + 1) k ≡ true) (less : ltb k (i + 1 + left) ≡ true).
                ap (λ (q : Ref). q == found)
                  (set_forward_other (u i) i (s.forward found i) s (u k) k (ground (arith, more)))
                ∙ h k (ground (arith, more)) (ground (arith, less)) in
            rw (here, on)
              (forward-unlink left (i + 1) tall found u s' r j others ∙ elim (Bool-cases (j == i)) [
                | inl same ↦
                    let at_i : j ≡ i = beq_eq j i same in
                    let lower : (leb (i + 1) j && (ltb j (i + 1 + left) && ltb j tall)) ≡ false =
                      ground (arith, same) in
                    let upper : (leb i j && (ltb j (i + suc left) && ltb j tall)) ≡ true =
                      ground (arith, same, on) in
                    rw (lower, upper) (skipped i found u s r j at_i)
                | inr other ↦
                    let guards : (leb (i + 1) j && (ltb j (i + 1 + left) && ltb j tall))
                        ≡ (leb i j && (ltb j (i + suc left) && ltb j tall)) =
                      ground (arith, other) in
                    let to_found = set_forward_other (u i) i (s.forward found i) s found j other in
                    let to_r = set_forward_other (u i) i (s.forward found i) s r j other in
                    rw (guards, to_found, to_r)
              ])
      ]

  pub unlink_keeps :
      (left i : ℕ) (found : Ref) (u : ℕ → Ref) (s : SkipList P Q)
      → ((unlink left i found u s).entry ≡ s.entry)
        × ((unlink left i found u s).prev ≡ s.prev)
        × ((unlink left i found u s).tail ≡ s.tail)
        × ((unlink left i found u s).level ≡ s.level)
        × ((unlink left i found u s).allocated ≡ s.allocated)
        × ((unlink left i found u s).size ≡ s.size)
  unfolding unlink set_forward
  unlink_keeps zero i found u s = (refl, refl, refl, refl, refl, refl)
  unlink_keeps (suc left) i found u s =
      let rest = unlink_keeps left (i + 1) found u (set_forward (u i) i (s.forward found i) s) in
      elim (Bool-cases (s.forward (u i) i == found)) [
        | inl there ↦ rw there rest
        | inr gone ↦ rw gone (refl, refl, refl, refl, refl, refl)
      ]

  next_at-nil : (i : ℕ) (cs : List (Cell P Q)) → (next_at i cs == nil) ≡ true → Within i cs
  next_at-nil i [] h = tt
  next_at-nil i (c ∷ cs) h = elim (Bool-cases (ltb i c.tall)) [
    | inl on ↦ cc (rw on at h)
    | inr off ↦ (ground (arith, off), next_at-nil i cs (rw off at h))
  ]

  -- The level is lowered as far as no node stands above it.
  pub lower_level-Within :
      (forward : Ref → ℕ → Ref) (level : ℕ) (cs : List (Cell P Q))
      → ((i : ℕ) → ltb i max_level ≡ true → forward head i ≡ next_at i cs)
      → level ≤ max_level
      → 1 ≤ level
      → Within level cs
      → Within (lower_level forward level) cs
        × (1 ≤ lower_level forward level)
        × (lower_level forward level ≤ max_level)
  unfolding lower_level
  lower_level-Within forward zero cs links capped some_level w = absurd (omega arith)
  lower_level-Within forward (suc zero) cs links capped some_level w = (w, omega arith, omega arith)
  lower_level-Within forward (suc (suc l)) cs links capped some_level w =
      elim (Bool-cases (forward head (suc l) == nil)) [
        | inl empty ↦
            let none_here = rw (links (suc l) (ground arith)) at empty in
            rw empty (
              lower_level-Within forward (suc l) cs links (omega arith) (omega arith)
                (next_at-nil (suc l) cs none_here))
        | inr used ↦ rw used (w, omega arith, capped)
      ]
