-- ===== src/Orderbook/SkipList/Delete.antt =====
-- A node leaves the others: what the pointers are then.
use market_tick_aggregator.Prelude.{
  ℕ, ◌≡◌, ◌≤◌, refl, sym, ap, ◌∙◌, true, false, List, [], ◌∷◌, ◌++◌, Option, if◌then◌else◌, ltb,
  ◌==◌, nat_eq, arith, Bool-cases, inl, inr, beq_refl, ◌&&◌,
}
use market_tick_aggregator.Orderbook.SkipList.{SkipList, Ref, nil, head, node, ref_eq, max_level}
use market_tick_aggregator.Orderbook.SkipList.Cells.{
  Cell, next_at, last_at, Outside, Distinct, next_at-append, last_at-Outside, Outside-parts,
  last_at-append, Within, Outside-head,
}
use market_tick_aggregator.Orderbook.SkipList.Chain.{Links, Inner, Prevs, Pointers}
use mathlib.Core.List.{append-nil}
use market_tick_aggregator.Orderbook.SkipList.Put.{Inner-parts}
use market_tick_aggregator.Orderbook.SkipList.Insert.{
  next_at-Outside, Apart, Others, Outside-Others, not_head,
}
use market_tick_aggregator.Orderbook.SkipList.Inserting.{beq_false_sym}

module _ {P Q : Type 0} where
  -- What a deletion did: the pointers to the node, by those behind it.
  pub record Deleted (s s' : SkipList P Q) (c : Cell P Q) (u : ℕ → Ref) (a : List (Cell P Q))
      : Type 0 where
    pub new_forward :
        (r : Ref) (j : ℕ)
        → ltb j max_level ≡ true
        → s'.forward r j ≡ (if ltb j c.tall && (r == u j) then next_at j a else s.forward r j)
    pub same_entry : s'.entry ≡ s.entry
    pub new_prev :
        (r : Ref) → (r == nil) ≡ false → s'.prev r ≡ (if r == next_at 0 a then u 0 else s.prev r)

  module _ (s s' : SkipList P Q) (c : Cell P Q) (u : ℕ → Ref) (a : List (Cell P Q))
      (x : Deleted s s' c u a) where
    Links-delete :
        (r : Ref) (tall : ℕ) (b : List (Cell P Q))
        → tall ≤ max_level
        → Outside r b
        → ((j : ℕ) → ltb j tall ≡ true → u j ≡ last_at j r b)
        → Links s r tall (b ++ c ∷ a)
        → Links s' r tall (b ++ a)
    Links-delete r tall b capped out last links i h =
        let without = next_at-append i r b a out in
        let before = links i h ∙ next_at-append i r b (c ∷ a) out in
        let moved = rw (last i h) at (x.new_forward r i (ground (arith, h))) in
        elim (Bool-cases (ltb i c.tall)) [
          | inl on ↦ elim (Bool-cases (r == last_at i r b)) [
            | inl here ↦ (rw (on, here) at moved) ∙ sym (rw here at without)
            | inr there ↦
                (rw (on, there) at moved) ∙ (rw there at before) ∙ sym (rw there at without)
          ]
          | inr off ↦ (rw off at moved) ∙ (rw off at before) ∙ sym without
        ]

    Inner-same :
        (cs : List (Cell P Q)) → Apart c.tall u cs → Within max_level cs → Inner s cs → Inner s' cs
    Inner-same [] p w h = tt
    Inner-same (d ∷ cs) p w h = (
      record {
        links = λ i g.
            x.new_forward (node d.id) i (ground (arith, g, w.0))
            ∙ elim (Bool-cases (ltb i c.tall)) [
              | inl on ↦ rw (on, p.0 i on) (h.0.links i g)
              | inr off ↦ rw off (h.0.links i g)
            ];
        holds = ap (λ (f : Ref → Option (P × Q)). f (node d.id)) x.same_entry ∙ h.0.holds;
        on_bottom = h.0.on_bottom;
      },
      Inner-same cs p.1 w.1 h.1,
    )

    Inner-delete :
        (b : List (Cell P Q)) (q : ℕ → Ref)
        → ((j : ℕ) → ltb j max_level ≡ true → u j ≡ last_at j (q j) b)
        → Distinct (b ++ c ∷ a)
        → Within max_level b
        → Inner s (b ++ c ∷ a)
        → Inner s' a
        → Inner s' (b ++ a)
    Inner-delete [] q last d w h base = base
    Inner-delete (y ∷ b) q last d w h base = (
      record {
        links =
            Links-delete (node y.id) y.tall b w.0 (Outside-parts (node y.id) b (c ∷ a) d.0).0
              (λ j g. last j (ground (arith, g, w.0)) ∙ rw g) h.0.links;
        holds = ap (λ (f : Ref → Option (P × Q)). f (node y.id)) x.same_entry ∙ h.0.holds;
        on_bottom = h.0.on_bottom;
      },
      Inner-delete b (λ j. if ltb j y.tall then node y.id else q j) last d.1 w.1 h.1 base,
    )

    Prevs-later :
        (r : Ref) (cs : List (Cell P Q)) → Others (next_at 0 a) cs → Prevs s r cs → Prevs s' r cs
    Prevs-later r [] o p = tt
    Prevs-later r (d ∷ cs) o p =
        ((rw o.0 at (x.new_prev (node d.id) refl)) ∙ p.0, Prevs-later (node d.id) cs o.1 p.1)

    Prevs-behind :
        (r : Ref) (cs : List (Cell P Q))
        → u 0 ≡ r
        → next_at 0 a ≡ next_at 0 cs
        → Distinct cs
        → Inner s cs
        → Prevs s (node c.id) cs
        → Prevs s' r cs
    Prevs-behind r [] last first d h p = tt
    Prevs-behind r (y ∷ cs) last first d h p =
        let here : next_at 0 a ≡ node y.id = first ∙ rw h.0.on_bottom in
        (
          (rw (here, beq_refl y.id) at (x.new_prev (node y.id) refl)) ∙ last,
          Prevs-later (node y.id) cs (rw here (Outside-Others y.id cs d.0)) p.1,
        )

    Prevs-delete :
        (r : Ref) (b : List (Cell P Q))
        → u 0 ≡ last_at 0 r b
        → Distinct (b ++ c ∷ a)
        → Inner s (b ++ c ∷ a)
        → Prevs s r (b ++ c ∷ a)
        → Prevs s' r (b ++ a)
    Prevs-delete r [] last d h p = Prevs-behind r a last refl d.1 h.1 p.1
    Prevs-delete r (y ∷ b) last d h p =
        let behind = (Outside-parts (node y.id) b (c ∷ a) d.0).1 in
        let apart = next_at-Outside 0 (node y.id) a refl behind.1 in
        (
          (rw apart at (x.new_prev (node y.id) refl)) ∙ p.0,
          Prevs-delete (node y.id) b (last ∙ rw h.0.on_bottom) d.1 h.1 p.1,
        )

    pub delete-Pointers :
        (b : List (Cell P Q))
        → ((j : ℕ) → ltb j max_level ≡ true → u j ≡ last_at j head b)
        → s'.tail ≡ last_at 0 nil (b ++ a)
        → Distinct (b ++ c ∷ a)
        → Apart c.tall u a
        → Within max_level (b ++ a)
        → Within max_level b
        → Within max_level a
        → Inner s (c ∷ a)
        → Pointers s (b ++ c ∷ a)
        → Pointers s' (b ++ a)
    delete-Pointers b last ends d p all w w' h g = record {
      start = Links-delete head max_level b (omega arith) (Outside-head b) last g.start;
      inner = Inner-delete b (λ j. head) last d w g.inner (Inner-same a p w' h.1);
      prevs = Prevs-delete head b (last 0 refl) d g.inner g.prevs;
      ends = ends;
      no_entry = ap (λ (f : Ref → Option (P × Q)). f nil) x.same_entry ∙ g.no_entry;
      no_prev = (rw (not_head 0 a) at (x.new_prev head refl)) ∙ g.no_prev;
    }

  ends_middle :
      (s : SkipList P Q) (c : Cell P Q) (b : List (Cell P Q)) (y : Cell P Q) (a : List (Cell P Q))
      → Inner s (b ++ c ∷ y ∷ a)
      → (if next_at 0 (y ∷ a) == nil
          then (if last_at 0 head b == head then nil else last_at 0 head b)
          else last_at 0 nil (b ++ c ∷ y ∷ a))
        ≡ last_at 0 nil (b ++ y ∷ a)
  ends_middle s c b y a h =
      let bottom = (Inner-parts s b (c ∷ y ∷ a) h).1.0.on_bottom in
      rw bottom (
        last_at-append 0 nil b (c ∷ y ∷ a)
        ∙ rw bottom (sym (last_at-append 0 nil b (y ∷ a) ∙ rw bottom)))

  -- The tail after the deletion: the node before, if the last one went, and nil at the head.
  pub ends-delete :
      (s : SkipList P Q) (c : Cell P Q) (b a : List (Cell P Q))
      → Inner s (b ++ c ∷ a)
      → (if next_at 0 a == nil
          then (if last_at 0 head b == head then nil else last_at 0 head b)
          else last_at 0 nil (b ++ c ∷ a))
        ≡ last_at 0 nil (b ++ a)
  ends-delete s c [] [] h = refl
  ends-delete s c [] (y ∷ a) h = ends_middle s c [] y a h
  ends-delete s c (d ∷ b) [] h =
      let inside =
        beq_false_sym head (last_at 0 (node d.id) b)
          (last_at-Outside 0 head (node d.id) b refl (Outside-head b)) in
      rw append-nil (rw (h.0.on_bottom, inside))
  ends-delete s c (d ∷ b) (y ∷ a) h = ends_middle s c (d ∷ b) y a h
