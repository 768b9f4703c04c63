-- ===== src/Adapter/Ring/Queue.antt =====
-- The ring as an unbounded queue whose reader first skips what no longer fits.
use market_tick_aggregator.Prelude.{
  ℕ, zero, suc, ◌+◌, ◌-◌, ◌*◌, ◌/◌, ◌%◌, ◌≤◌, ◌<◌, ◌≡◌, ◌≢◌, refl, sym, ap, ◌∙◌, Bool, true, false,
  List, [], ◌∷◌, ◌++◌, Option, none, some, if◌then◌else◌, get_or, length, length-append, length-set,
  length-replicate, get_or-set_self, get_or-set_ne, ◌==◌, nat_eq, arith, beq_eq, Bool-cases, inl,
  inr, or_else, subst,
}
use native.Mathlib.Nat.{mod-lt, div-add-mod, mul-le-mul_left, mul-add, mul-suc}
use market_tick_aggregator.Adapter.Ring.{
  is_power_below, is_power_of_two, SpscDropOldestRing, new_ring, push, overwritten, pop_at, pop,
}

-- Places less than a whole round apart are different slots.
mod_ne : (n a d : ℕ) → 0 < d → d < n → a % n ≢ (a + d) % n
mod_ne n a d h k e = apart ((a + d) / n - a / n) refl
  where
    apart : (q : ℕ) → (a + d) / n - a / n ≡ q → ⊥
    apart zero m =
        let below : n * ((a + d) / n) ≤ n * (a / n) = mul-le-mul_left n (omega (arith, m)) in
        omega (arith, below, div-add-mod a n, div-add-mod (a + d) n)
    apart (suc q) m =
        let rounds : n * ((a + d) / n) ≡ n * (a / n) + (n * q + n) =
          ap (λ (y : ℕ). n * y) (omega (arith, m))
          ∙ mul-add n (a / n) (suc q)
          ∙ ap (λ (y : ℕ). n * (a / n) + y) (mul-suc n q) in
        omega (arith, rounds, div-add-mod a n, div-add-mod (a + d) n)

power-positive : (n : ℕ) → is_power_of_two n ≡ true → 0 < n
unfolding is_power_below
power-positive zero h = cc
power-positive (suc n) h = omega arith

module _ {A : Type 0} (d : A) where
  unfoldable pub drop : ℕ → List A → List A
  drop zero xs = xs
  drop (suc n) [] = []
  drop (suc n) (x ∷ xs) = drop n xs

  pub length-drop : (n : ℕ) (xs : List A) → length (drop n xs) ≡ length xs - n
  unfolding drop
  length-drop zero xs = omega arith
  length-drop (suc n) [] = omega arith
  length-drop (suc n) (x ∷ xs) = length-drop n xs ∙ omega arith

  get_or-drop : (n i : ℕ) (xs : List A) → get_or (drop n xs) i d ≡ get_or xs (n + i) d
  unfolding drop
  get_or-drop zero i xs = let e : i ≡ zero + i = omega arith in ap (λ (j : ℕ). get_or xs j d) e
  get_or-drop (suc n) i [] = refl
  get_or-drop (suc n) i (x ∷ xs) =
      let e : suc (n + i) ≡ suc n + i = omega arith in
      get_or-drop n i xs ∙ ap (λ (j : ℕ). get_or (x ∷ xs) j d) e

  get_or-append_before :
      (i : ℕ) (xs : List A) (v : A) → i < length xs → get_or (xs ++ (v ∷ [])) i d ≡ get_or xs i d
  get_or-append_before i [] v h = absurd (omega arith)
  get_or-append_before zero (x ∷ xs) v h = refl
  get_or-append_before (suc i) (x ∷ xs) v h = get_or-append_before i xs v (omega arith)

  get_or-append_last : (xs : List A) (v : A) → get_or (xs ++ (v ∷ [])) (length xs) d ≡ v
  get_or-append_last [] v = refl
  get_or-append_last (x ∷ xs) v = get_or-append_last xs v

  -- The queue's side: what was pushed and not yet read or skipped, the oldest first.
  unfoldable pub put : A → List A → List A
  put v q = q ++ (v ∷ [])

  abbrev pub excess : ℕ → List A → ℕ
  excess capacity q = length q - capacity

  -- The oldest entry of the newest `capacity`, with how many were skipped.
  unfoldable pub take : ℕ → List A → Option (A × ℕ) × List A
  take capacity [] = (none, [])
  take capacity (x ∷ q) =
      let n = excess capacity (x ∷ q) in (some (get_or (x ∷ q) n d, n), drop (n + 1) (x ∷ q))

  -- The ring holds the newest `capacity` unread entries in their slots.
  pub record Holds (r : SpscDropOldestRing A) (q : List A) : Type 0 where
    pub sized : length r.buf ≡ r.capacity
    pub positive : 0 < r.capacity
    pub counted : r.tail ≡ r.head + length q
    pub slots :
        (i : ℕ)
        → i < length q
        → length q ≤ i + r.capacity
        → get_or r.buf ((r.head + i) % r.capacity) d ≡ get_or q i d

  pub new_ring-Holds :
      (capacity : ℕ) (r : SpscDropOldestRing A)
      → new_ring d capacity ≡ some r
      → Holds r [] × (r.capacity ≡ capacity)
  unfolding new_ring
  new_ring-Holds capacity r h = elim (Bool-cases (is_power_of_two capacity)) [
    | inr bad ↦ cc (rw bad at h)
    | inl good ↦
        let e = ap (λ (o : Option (SpscDropOldestRing A)). or_else o r) (rw good at h) in
        subst (λ (s : SpscDropOldestRing A). Holds s [] × (s.capacity ≡ capacity)) e
          (
            record {
              sized = length-replicate capacity d;
              positive = power-positive capacity good;
              counted = omega arith;
              slots = λ i k l. absurd (omega arith);
            },
            refl,
          )
  ]

  push-slot :
      (r : SpscDropOldestRing A) (q : List A) (v : A) (i : ℕ)
      → Holds r q
      → i < length q + 1
      → length q + 1 ≤ i + r.capacity
      → get_or (push d v r).buf ((r.head + i) % r.capacity) d ≡ get_or (q ++ (v ∷ [])) i d
  unfolding push
  push-slot r q v i h below fits = elim (Bool-cases (i == length q)) [
    | inl last ↦
        let e = beq_eq i (length q) last in
        let at : (r.head + i) % r.capacity ≡ r.tail % r.capacity =
          ap (λ (j : ℕ). j % r.capacity) (omega (arith, e, h.counted)) in
        rw (at, e)
          (get_or-set_self r.buf (r.tail % r.capacity) v d (rw h.sized (mod-lt r.tail h.positive))
            ∙ sym (get_or-append_last q v))
    | inr before ↦
        let less : i < length q = ground (arith, before) in
        get_or-set_ne r.buf (r.tail % r.capacity) ((r.head + i) % r.capacity) v d (λ e.
          mod_ne r.capacity (r.head + i) (length q - i) (omega arith) (omega arith)
            (sym e ∙ ap (λ (j : ℕ). j % r.capacity) (omega (arith, h.counted))))
        ∙ h.slots i less (omega arith)
        ∙ sym (get_or-append_before i q v less)
  ]

  pub push-Holds :
      (r : SpscDropOldestRing A) (q : List A) (v : A) → Holds r q → Holds (push d v r) (put v q)
  unfolding push put
  push-Holds r q v h = record {
    sized = length-set r.buf (r.tail % r.capacity) v ∙ h.sized;
    positive = h.positive;
    counted = omega (arith, h.counted, length-append q (v ∷ []));
    slots = λ i below fits.
        push-slot r q v i h (omega (arith, below, length-append q (v ∷ [])))
          (omega (arith, fits, length-append q (v ∷ [])));
  }

  -- What `Pop` returns, as the queue's `take` does.
  abbrev pub seen : A × Bool × ℕ × SpscDropOldestRing A → Option (A × ℕ)
  seen (v, ok, dropped, r) = if ok then some (v, dropped) else none

  abbrev pub left : A × Bool × ℕ × SpscDropOldestRing A → SpscDropOldestRing A
  left (v, ok, dropped, r) = r

  abbrev pub Pops : SpscDropOldestRing A → List A → Type 0
  Pops r q = (seen (pop d r) ≡ (take r.capacity q).0) × Holds (left (pop d r)) (take r.capacity q).1

  pop_empty-Pops : (r : SpscDropOldestRing A) → Holds r [] → Pops r []
  unfolding pop take
  pop_empty-Pops r h =
      let e : (r.head == r.tail) ≡ true = ground (arith, h.counted) in rw e (refl, h)

  pop_some-Pops : (r : SpscDropOldestRing A) (x : A) (q : List A) → Holds r (x ∷ q) → Pops r (x ∷ q)
  unfolding pop pop_at take
  pop_some-Pops r x q h =
      let e : (r.head == r.tail) ≡ false = ground (arith, h.counted) in
      let n = excess r.capacity (x ∷ q) in
      let skipped : overwritten d r.tail r ≡ n = ground (arith, h.counted) in
      rw (e, skipped)
        (
          ap (λ (v : A). some (v, n)) (h.slots n (omega (arith, h.positive)) (omega arith)),
          record {
            sized = h.sized;
            positive = h.positive;
            counted = omega (arith, h.counted, length-drop (n + 1) (x ∷ q));
            slots = λ i below fits.
                let l = length-drop (n + 1) (x ∷ q) in
                let there : r.head + n + 1 + i ≡ r.head + (n + 1 + i) = omega arith in
                ap (λ (j : ℕ). get_or r.buf (j % r.capacity) d) there
                ∙ h.slots (n + 1 + i) (omega (arith, below, l)) (omega (arith, fits, l))
                ∙ sym (get_or-drop (n + 1) i (x ∷ q));
          },
        )

  pub pop-Pops : (r : SpscDropOldestRing A) (q : List A) → Holds r q → Pops r q
  pop-Pops r [] h = pop_empty-Pops r h
  pop-Pops r (x ∷ q) h = pop_some-Pops r x q h
