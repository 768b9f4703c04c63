-- ===== src/Orderbook/SkipList/Cells.antt =====
-- The nodes of a skip list in the order of their keys, each with the number of levels it is on.
use market_tick_aggregator.Prelude.{
  ℕ, suc, ◌≡◌, ◌≤◌, refl, ap, false, List, [], ◌∷◌, ◌++◌, if◌then◌else◌, length, ltb, ◌==◌, nat_eq,
  arith, Bool-cases, inl, inr, beq_refl,
}
use market_tick_aggregator.Orderbook.OrderedTree.{Levels}
use market_tick_aggregator.Orderbook.SkipList.{Ref, nil, head, node, ref_eq}

pub record Cell (P Q : Type 0) : Type 0 where
  pub id : ℕ
  pub key : P
  pub value : Q
  pub tall : ℕ

module _ {P Q : Type 0} where
  abbrev pub ref_of : Cell P Q → Ref
  ref_of c = node c.id

  abbrev pub levels_of : List (Cell P Q) → Levels P Q
  levels_of [] = []
  levels_of (c ∷ cs) = (c.key, c.value) ∷ levels_of cs

  abbrev pub ids : List (Cell P Q) → List ℕ
  ids [] = []
  ids (c ∷ cs) = c.id ∷ ids cs

  -- Who stands first on level `i`.
  abbrev pub next_at : ℕ → List (Cell P Q) → Ref
  next_at i [] = nil
  next_at i (c ∷ cs) = if ltb i c.tall then node c.id else next_at i cs

  -- Who stands last on level `i`, or `r` if none does.
  abbrev pub last_at : ℕ → Ref → List (Cell P Q) → Ref
  last_at i r [] = r
  last_at i r (c ∷ cs) = last_at i (if ltb i c.tall then node c.id else r) cs

  -- `r` is none of the cells.
  abbrev pub Outside : Ref → List (Cell P Q) → Type 0
  Outside r [] = Unit {0}
  Outside r (c ∷ cs) = ((r == node c.id) ≡ false) × Outside r cs

  abbrev pub Distinct : List (Cell P Q) → Type 0
  Distinct [] = Unit {0}
  Distinct (c ∷ cs) = Outside (node c.id) cs × Distinct cs

  -- No cell stands on more levels than `level`.
  abbrev pub Within : ℕ → List (Cell P Q) → Type 0
  Within level [] = Unit {0}
  Within level (c ∷ cs) = (c.tall ≤ level) × Within level cs

  pub Outside-append :
      (r : Ref) (cs ds : List (Cell P Q)) → Outside r cs → Outside r ds → Outside r (cs ++ ds)
  Outside-append r [] ds a b = b
  Outside-append r (c ∷ cs) ds a b = (a.0, Outside-append r cs ds a.1 b)

  pub Outside-parts :
      (r : Ref) (cs ds : List (Cell P Q)) → Outside r (cs ++ ds) → Outside r cs × Outside r ds
  Outside-parts r [] ds a = (tt, a)
  Outside-parts r (c ∷ cs) ds a = let rest = Outside-parts r cs ds a.1 in ((a.0, rest.0), rest.1)

  -- The last on a level is `r` or one of the cells.
  pub last_at-Outside :
      (i : ℕ) (q r : Ref) (cs : List (Cell P Q))
      → (q == r) ≡ false
      → Outside q cs
      → (q == last_at i r cs) ≡ false
  last_at-Outside i q r [] h a = h
  last_at-Outside i q r (c ∷ cs) h a = elim (Bool-cases (ltb i c.tall)) [
    | inl on ↦ rw on (last_at-Outside i q (node c.id) cs a.0 a.1)
    | inr off ↦ rw off (last_at-Outside i q r cs h a.1)
  ]

  -- Either some cell is on the level, and what follows the cells does not show, or none is.
  pub next_at-append :
      (i : ℕ) (r : Ref) (cs ds : List (Cell P Q))
      → Outside r cs
      → next_at i (cs ++ ds) ≡ (if r == last_at i r cs then next_at i ds else next_at i cs)
  next_at-append i r [] ds a = rw (beq_refl r)
  next_at-append i r (c ∷ cs) ds a = elim (Bool-cases (ltb i c.tall)) [
    | inl on ↦ rw (on, last_at-Outside i r (node c.id) cs a.0 a.1)
    | inr off ↦ rw off (next_at-append i r cs ds a.1)
  ]

  pub length-levels_of : (cs : List (Cell P Q)) → length (levels_of cs) ≡ length cs
  length-levels_of [] = refl
  length-levels_of (c ∷ cs) = ap suc (length-levels_of cs)

  pub levels_of-append :
      (cs ds : List (Cell P Q)) → levels_of (cs ++ ds) ≡ levels_of cs ++ levels_of ds
  levels_of-append [] ds = refl
  levels_of-append (c ∷ cs) ds =
      ap (λ (l : Levels P Q). (c.key, c.value) ∷ l) (levels_of-append cs ds)

  pub last_at-append :
      (i : ℕ) (r : Ref) (cs ds : List (Cell P Q))
      → last_at i r (cs ++ ds) ≡ last_at i (last_at i r cs) ds
  last_at-append i r [] ds = refl
  last_at-append i r (c ∷ cs) ds = last_at-append i (if ltb i c.tall then node c.id else r) cs ds

  -- each of the second cells is none of the first
  pub Distinct-parts :
      (cs : List (Cell P Q)) (d : Cell P Q) (ds : List (Cell P Q))
      → Distinct (cs ++ d ∷ ds)
      → Distinct (cs ++ ds) × Outside (node d.id) cs × Outside (node d.id) ds
  Distinct-parts [] d ds a = (a.1, tt, a.0)
  Distinct-parts (c ∷ cs) d ds a =
      let rest = Distinct-parts cs d ds a.1 in
      let (here, there) = Outside-parts (node c.id) cs (d ∷ ds) a.0 in
      (
        (Outside-append (node c.id) cs ds here there.1, rest.0),
        (ground (arith, there.0), rest.1),
        rest.2,
      )

  pub Outside-head : (cs : List (Cell P Q)) → Outside head cs
  Outside-head [] = tt
  Outside-head (c ∷ cs) = (refl, Outside-head cs)

  -- above all cells, nothing but the start is on a level
  pub last_at_above :
      (i level : ℕ) (r : Ref) (cs : List (Cell P Q))
      → Within level cs
      → level ≤ i
      → last_at i r cs ≡ r
  last_at_above i level r [] w h = refl
  last_at_above i level r (c ∷ cs) w h =
      let off : ltb i c.tall ≡ false = ground (arith, w.0) in
      rw off (last_at_above i level r cs w.1 h)
