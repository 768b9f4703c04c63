-- ===== src/Orderbook/SkipList/Insert.antt =====
-- A new node stands among the others in the order of the keys.
use market_tick_aggregator.Prelude.{
  ℕ, ◌≡◌, refl, sym, ◌∙◌, true, false, List, [], ◌∷◌, ◌++◌, some, if◌then◌else◌, ltb, ◌==◌, nat_eq,
  arith, Bool-cases, inl, inr, beq_refl, ◌&&◌,
}
use market_tick_aggregator.Orderbook.SkipList.{SkipList, Ref, nil, head, node, ref_eq, max_level}
use market_tick_aggregator.Orderbook.SkipList.Cells.{
  Cell, next_at, last_at, Outside, Distinct, next_at-append, Outside-parts, Within,
}
use market_tick_aggregator.Orderbook.SkipList.Chain.{Links, Inner, Prevs, Pointers}

module _ {P Q : Type 0} where
  -- What an insertion did: the pointers of the new node, and of those to which it is a neighbour.
  pub record Inserted (s s' : SkipList P Q) (n : Cell P Q) (u : ℕ → Ref) (next : Ref) : Type 0 where
    pub old_forward :
        (r : Ref) (j : ℕ)
        → (r == node n.id) ≡ false
        → s'.forward r j ≡ (if ltb j n.tall && (r == u j) then node n.id else s.forward r j)
    pub new_forward : (j : ℕ) → ltb j n.tall ≡ true → s'.forward (node n.id) j ≡ s.forward (u j) j
    pub old_entry : (r : Ref) → (r == node n.id) ≡ false → s'.entry r ≡ s.entry r
    pub new_entry : s'.entry (node n.id) ≡ some (n.key, n.value)
    pub old_prev :
        (r : Ref)
        → (r == node n.id) ≡ false
        → (r == nil) ≡ false
        → s'.prev r ≡ (if r == next then node n.id else s.prev r)
    pub new_prev : s'.prev (node n.id) ≡ u 0

  pub next_at-Outside :
      (i : ℕ) (q : Ref) (cs : List (Cell P Q))
      → (q == nil) ≡ false
      → Outside q cs
      → (q == next_at i cs) ≡ false
  next_at-Outside i q [] h a = h
  next_at-Outside i q (c ∷ cs) h a = elim (Bool-cases (ltb i c.tall)) [
    | inl on ↦ rw on a.0
    | inr off ↦ rw off (next_at-Outside i q cs h a.1)
  ]

  -- None of the cells is the last node before the key on a level.
  abbrev pub Apart : ℕ → (ℕ → Ref) → List (Cell P Q) → Type 0
  Apart lvl u [] = Unit {0}
  Apart lvl u (c ∷ cs) = ((j : ℕ) → ltb j lvl ≡ true → (node c.id == u j) ≡ false) × Apart lvl u cs

  abbrev pub Fresh : Cell P Q → List (Cell P Q) → Type 0
  Fresh n [] = Unit {0}
  Fresh n (c ∷ cs) = ((node c.id == node n.id) ≡ false) × Fresh n cs

  -- None of the cells is `r`.
  abbrev pub Others : Ref → List (Cell P Q) → Type 0
  Others r [] = Unit {0}
  Others r (c ∷ cs) = ((node c.id == r) ≡ false) × Others r cs

  pub Outside-Others : (i : ℕ) (cs : List (Cell P Q)) → Outside (node i) cs → Others (node i) cs
  Outside-Others i [] h = tt
  Outside-Others i (c ∷ cs) h = (ground (arith, h.0), Outside-Others i cs h.1)

  pub not_head : (i : ℕ) (cs : List (Cell P Q)) → (head == next_at i cs) ≡ false
  not_head i [] = refl
  not_head i (c ∷ cs) = elim (Bool-cases (ltb i c.tall)) [
    | inl on ↦ rw on
    | inr off ↦ rw off (not_head i cs)
  ]

  module _ (s s' : SkipList P Q) (n : Cell P Q) (u : ℕ → Ref) (a : List (Cell P Q))
      (x : Inserted s s' n u (next_at 0 a)) where
    Links-insert :
        (r : Ref) (tall : ℕ) (b : List (Cell P Q))
        → (r == node n.id) ≡ false
        → Outside r b
        → ((j : ℕ) → ltb j tall ≡ true → u j ≡ last_at j r b)
        → Links s r tall (b ++ a)
        → Links s' r tall (b ++ n ∷ a)
    Links-insert r tall b old out last links i h =
        let with_new = next_at-append i r b (n ∷ a) out in
        let without_new : s.forward r i
            ≡ (if r == last_at i r b then next_at i a else next_at i b) =
          links i h ∙ next_at-append i r b a out in
        let moved : s'.forward r i
            ≡ (if ltb i n.tall && (r == last_at i r b) then node n.id else s.forward r i) =
          rw (last i h) at (x.old_forward r i old) in
        elim (Bool-cases (ltb i n.tall)) [
          | inl on ↦ elim (Bool-cases (r == last_at i r b)) [
            | inl here ↦ (rw (on, here) at moved) ∙ sym (rw (here, on) at with_new)
            | inr there ↦
                (rw (on, there) at moved) ∙ (rw there at without_new) ∙ sym (rw there at with_new)
          ]
          | inr off ↦ (rw off at moved) ∙ without_new ∙ sym (rw off at with_new)
        ]

    Inner-same : (cs : List (Cell P Q)) → Fresh n cs → Apart n.tall u cs → Inner s cs → Inner s' cs
    Inner-same [] f p h = tt
    Inner-same (c ∷ cs) f p h = (
      record {
        links = λ i g. x.old_forward (node c.id) i f.0 ∙ elim (Bool-cases (ltb i n.tall)) [
          | inl on ↦ rw (on, p.0 i on) (h.0.links i g)
          | inr off ↦ rw off (h.0.links i g)
        ];
        holds = x.old_entry (node c.id) f.0 ∙ h.0.holds;
        on_bottom = h.0.on_bottom;
      },
      Inner-same cs f.1 p.1 h.1,
    )

    Inner-insert :
        (b : List (Cell P Q)) (q : ℕ → Ref)
        → ((j : ℕ) → ltb j max_level ≡ true → u j ≡ last_at j (q j) b)
        → Distinct (b ++ a)
        → Fresh n (b ++ a)
        → Within max_level b
        → Inner s (b ++ a)
        → Inner s' (n ∷ a)
        → Inner s' (b ++ n ∷ a)
    Inner-insert [] q last d f t h base = base
    Inner-insert (c ∷ b) q last d f t h base = (
      record {
        links =
            Links-insert (node c.id) c.tall b f.0 (Outside-parts (node c.id) b a d.0).0
              (λ j g. last j (ground (arith, g)) ∙ rw g) h.0.links;
        holds = x.old_entry (node c.id) f.0 ∙ h.0.holds;
        on_bottom = h.0.on_bottom;
      },
      Inner-insert b (λ j. if ltb j c.tall then node c.id else q j) last d.1 f.1 t.1 h.1 base,
    )

    Prevs-later :
        (r : Ref) (cs : List (Cell P Q))
        → Fresh n cs
        → Others (next_at 0 a) cs
        → Prevs s r cs
        → Prevs s' r cs
    Prevs-later r [] f o p = tt
    Prevs-later r (c ∷ cs) f o p = (
      (rw o.0 at (x.old_prev (node c.id) f.0 refl)) ∙ p.0,
      Prevs-later (node c.id) cs f.1 o.1 p.1,
    )

    Prevs-behind :
        (r : Ref) (cs : List (Cell P Q))
        → next_at 0 a ≡ next_at 0 cs
        → Fresh n cs
        → Distinct cs
        → Inner s cs
        → Prevs s r cs
        → Prevs s' (node n.id) cs
    Prevs-behind r [] first f d h p = tt
    Prevs-behind r (c ∷ cs) first f d h p =
        let here : next_at 0 a ≡ node c.id = first ∙ rw h.0.on_bottom in
        (
          (rw (here, beq_refl c.id) at (x.old_prev (node c.id) f.0 refl)),
          Prevs-later (node c.id) cs f.1 (rw here (Outside-Others c.id cs d.0)) p.1,
        )

    Prevs-insert :
        (r : Ref) (b : List (Cell P Q))
        → u 0 ≡ last_at 0 r b
        → Fresh n (b ++ a)
        → Distinct (b ++ a)
        → Inner s (b ++ a)
        → Prevs s r (b ++ a)
        → Prevs s' r (b ++ n ∷ a)
    Prevs-insert r [] last f d h p = (x.new_prev ∙ last, Prevs-behind r a refl f d h p)
    Prevs-insert r (c ∷ b) last f d h p =
        let apart = next_at-Outside 0 (node c.id) a refl (Outside-parts (node c.id) b a d.0).1 in
        (
          (rw apart at (x.old_prev (node c.id) f.0 refl)) ∙ p.0,
          Prevs-insert (node c.id) b (last ∙ rw h.0.on_bottom) f.1 d.1 h.1 p.1,
        )

    pub insert-Pointers :
        (b : List (Cell P Q))
        → ((j : ℕ) → ltb j max_level ≡ true → u j ≡ last_at j head b)
        → ((j : ℕ) → ltb j n.tall ≡ true → s.forward (u j) j ≡ next_at j a)
        → ltb 0 n.tall ≡ true
        → s'.tail ≡ last_at 0 nil (b ++ n ∷ a)
        → Distinct (b ++ a)
        → Fresh n (b ++ a)
        → Fresh n a
        → Apart n.tall u a
        → Outside head b
        → Within max_level b
        → Inner s a
        → Pointers s (b ++ a)
        → Pointers s' (b ++ n ∷ a)
    insert-Pointers b last nexts bottom ends d f f' p out t h g = record {
      start = Links-insert head max_level b refl out last g.start;
      inner =
          Inner-insert b (λ j. head) last d f t g.inner
            (
              record {
                links = λ i k. x.new_forward i k ∙ nexts i k;
                holds = x.new_entry;
                on_bottom = bottom;
              },
              Inner-same a f' p h,
            );
      prevs = Prevs-insert head b (last 0 refl) f d g.inner g.prevs;
      ends = ends;
      no_entry = x.old_entry nil refl ∙ g.no_entry;
      no_prev = (rw (not_head 0 a) at (x.old_prev head refl refl)) ∙ g.no_prev;
    }
