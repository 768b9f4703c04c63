-- ===== src/Orderbook/Coordinator/Minimum.antt =====
-- The lowest acked offset of each partition.
use market_tick_aggregator.Prelude.{
  ℕ, ◌+◌, ◌≤◌, ◌≡◌, refl, sym, ap, ◌∙◌, List, [], ◌∷◌, ◌++◌, Option, none, some, if◌then◌else◌, min,
  arith, nat_eq, ◌==◌, Bool-cases, Option-cases, inl, inr, beq_eq,
}
use market_tick_aggregator.Prelude.Assoc.{Assoc, lookup, lookup-insert}
use market_tick_aggregator.Orderbook.Coordinator.{note_min, note_offsets, min_offsets, next_offsets}

-- The lesser of two offsets that may be missing.
abbrev pub lesser : Option ℕ → Option ℕ → Option ℕ
lesser none b = b
lesser (some a) none = some a
lesser (some a) (some b) = some (min a b)

-- The offsets that one worker's map, or all the workers' maps, give for a partition.
unfoldable pub offsets_in : ℕ → Assoc ℕ ℕ → List ℕ
offsets_in q [] = []
offsets_in q ((p, off) ∷ offs) = let rest = offsets_in q offs in if p == q then off ∷ rest else rest

unfoldable pub acked_offsets : ℕ → Assoc ℕ (Assoc ℕ ℕ) → List ℕ
acked_offsets q [] = []
acked_offsets q ((w, offs) ∷ acks) = offsets_in q offs ++ acked_offsets q acks

unfoldable pub smallest : List ℕ → Option ℕ
smallest [] = none
smallest (x ∷ xs) = lesser (some x) (smallest xs)

lesser_assoc : (a b c : Option ℕ) → lesser (lesser a b) c ≡ lesser a (lesser b c)
lesser_assoc none b c = refl
lesser_assoc (some a) none c = refl
lesser_assoc (some a) (some b) none = refl
lesser_assoc (some a) (some b) (some c) = ap some (omega arith)

lesser-none : (a : Option ℕ) → lesser a none ≡ a
lesser-none none = refl
lesser-none (some a) = refl

smallest-append : (xs ys : List ℕ) → smallest (xs ++ ys) ≡ lesser (smallest xs) (smallest ys)
unfolding smallest
smallest-append [] ys = refl
smallest-append (x ∷ xs) ys =
    ap (lesser (some x)) (smallest-append xs ys)
    ∙ sym (lesser_assoc (some x) (smallest xs) (smallest ys))

lookup-note_min :
    (p q off : ℕ) (m : Assoc ℕ ℕ)
    → lookup q (note_min p off m) ≡ (if p == q then lesser (lookup q m) (some off) else lookup q m)
unfolding note_min
lookup-note_min p q off m = elim (Option-cases (lookup p m)) [
  | inl e ↦ ground (arith, e, lookup-insert p q off m, beq_eq p q)
  | inr (cur, e) ↦ ground (arith, e, lookup-insert p q (min cur off) m, beq_eq p q)
]

lookup-note_offsets :
    (q : ℕ) (offs m : Assoc ℕ ℕ)
    → lookup q (note_offsets offs m) ≡ lesser (lookup q m) (smallest (offsets_in q offs))
unfolding note_offsets offsets_in smallest
lookup-note_offsets q [] m = sym (lesser-none (lookup q m))
lookup-note_offsets q ((p, off) ∷ offs) m = elim (Bool-cases (p == q)) [
  | inl same ↦
      rw (lookup-note_offsets q offs (note_min p off m), lookup-note_min p q off m, same)
        (lesser_assoc (lookup q m) (some off) (smallest (offsets_in q offs)))
  | inr other ↦ rw (lookup-note_offsets q offs (note_min p off m), lookup-note_min p q off m, other)
]

lookup-min_offsets_from :
    (q : ℕ) (acks : Assoc ℕ (Assoc ℕ ℕ)) (m : Assoc ℕ ℕ)
    → lookup q (min_offsets acks m) ≡ lesser (lookup q m) (smallest (acked_offsets q acks))
unfolding min_offsets acked_offsets smallest
lookup-min_offsets_from q [] m = sym (lesser-none (lookup q m))
lookup-min_offsets_from q ((w, offs) ∷ acks) m =
    rw
      (
        lookup-min_offsets_from q acks (note_offsets offs m),
        lookup-note_offsets q offs m,
        smallest-append (offsets_in q offs) (acked_offsets q acks),
      )
      (lesser_assoc (lookup q m) (smallest (offsets_in q offs)) (smallest (acked_offsets q acks)))

-- Whatever order the maps are gone through in, a commit has for each partition the smallest offset
-- that any worker acked for it, and no entry for a partition that none acked.
pub lookup-min_offsets :
    (q : ℕ) (acks : Assoc ℕ (Assoc ℕ ℕ))
    → lookup q (min_offsets acks []) ≡ smallest (acked_offsets q acks)
unfolding lookup
lookup-min_offsets q acks = lookup-min_offsets_from q acks []

abbrev pub next : Option ℕ → Option ℕ
next none = none
next (some off) = some (off + 1)

pub lookup-next_offsets : (q : ℕ) (m : Assoc ℕ ℕ) → lookup q (next_offsets m) ≡ next (lookup q m)
unfolding lookup next_offsets
lookup-next_offsets q [] = refl
lookup-next_offsets q ((p, off) ∷ m) = ground (arith, lookup-next_offsets q m)

-- The offset is there, and no higher than `off`.
abbrev pub NoHigher : Option ℕ → ℕ → Type 0
NoHigher none off = ⊥
NoHigher (some low) off = low ≤ off

-- No offset of the second without one of the first that is no higher.
abbrev pub AtOrBelow : Option ℕ → Option ℕ → Type 0
AtOrBelow low none = Unit {0}
AtOrBelow low (some off) = NoHigher low off

lesser-AtOrBelow_first : (a b : Option ℕ) → AtOrBelow (lesser a b) a
lesser-AtOrBelow_first none b = tt
lesser-AtOrBelow_first (some a) none = omega arith
lesser-AtOrBelow_first (some a) (some b) = omega arith

lesser-AtOrBelow_second : (a b x : Option ℕ) → AtOrBelow b x → AtOrBelow (lesser a b) x
lesser-AtOrBelow_second a b none h = tt
lesser-AtOrBelow_second none b (some x) h = h
lesser-AtOrBelow_second (some a) none (some x) h = absurd h
lesser-AtOrBelow_second (some a) (some b) (some x) h = omega arith

pub AtOrBelow-trans : (a b c : Option ℕ) → AtOrBelow a b → AtOrBelow b c → AtOrBelow a c
AtOrBelow-trans a b none h k = tt
AtOrBelow-trans a none (some z) h k = absurd k
AtOrBelow-trans none (some y) (some z) h k = absurd h
AtOrBelow-trans (some x) (some y) (some z) h k = omega arith

pub smallest-AtOrBelow-lookup :
    (q : ℕ) (offs : Assoc ℕ ℕ) → AtOrBelow (smallest (offsets_in q offs)) (lookup q offs)
unfolding smallest offsets_in lookup
smallest-AtOrBelow-lookup q [] = tt
smallest-AtOrBelow-lookup q ((j, off) ∷ offs) = elim (Bool-cases (j == q)) [
  | inl same ↦ rw same (lesser-AtOrBelow_first (some off) (smallest (offsets_in q offs)))
  | inr other ↦ rw other (smallest-AtOrBelow-lookup q offs)
]

acked_offsets-AtOrBelow :
    (q w : ℕ) (acks : Assoc ℕ (Assoc ℕ ℕ)) (offs : Assoc ℕ ℕ)
    → lookup w acks ≡ some offs
    → AtOrBelow (smallest (acked_offsets q acks)) (smallest (offsets_in q offs))
unfolding lookup acked_offsets
acked_offsets-AtOrBelow q w [] offs h = cc
acked_offsets-AtOrBelow q w ((j, first) ∷ acks) offs h = elim (Bool-cases (j == w)) [
  | inl same ↦
      let e : first ≡ offs = cc (rw same at h) in
      rw (smallest-append (offsets_in q first) (acked_offsets q acks), ← e)
        (lesser-AtOrBelow_first (smallest (offsets_in q first)) (smallest (acked_offsets q acks)))
  | inr other ↦ rw (smallest-append (offsets_in q first) (acked_offsets q acks)) (
      lesser-AtOrBelow_second (smallest (offsets_in q first)) (smallest (acked_offsets q acks)) _
        (acked_offsets-AtOrBelow q w acks offs (rw other at h)))
]

pub min_offsets-AtOrBelow :
    (q w : ℕ) (acks : Assoc ℕ (Assoc ℕ ℕ)) (offs : Assoc ℕ ℕ)
    → lookup w acks ≡ some offs
    → AtOrBelow (lookup q (min_offsets acks [])) (smallest (offsets_in q offs))
min_offsets-AtOrBelow q w acks offs h =
    rw (lookup-min_offsets q acks) (acked_offsets-AtOrBelow q w acks offs h)
