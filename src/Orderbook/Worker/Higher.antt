-- ===== src/Orderbook/Worker/Higher.antt =====
-- The highest offset of a partition, where there may be none.
use market_tick_aggregator.Prelude.{
  ℕ, ◌≡◌, refl, sym, ap, ◌∙◌, true, false, [], ◌∷◌, Option, none, some, if◌then◌else◌, max, ◌==◌,
  nat_eq, or_else, arith, Bool-cases, inl, inr, beq_eq,
}
use market_tick_aggregator.Prelude.Assoc.{Assoc, lookup, insert, lookup-insert}
use market_tick_aggregator.Orderbook.Worker.{offset_at, note_max}

-- The higher of two offsets, where there may be none.
abbrev pub higher : Option ℕ → Option ℕ → Option ℕ
higher none b = b
higher (some m) none = some m
higher (some m) (some n) = some (max m n)

pub higher-none : (a : Option ℕ) → higher a none ≡ a
higher-none none = refl
higher-none (some m) = refl

pub higher_comm : (a b : Option ℕ) → higher a b ≡ higher b a
higher_comm none b = sym (higher-none b)
higher_comm (some m) none = refl
higher_comm (some m) (some n) = ground arith

pub higher_assoc : (a b c : Option ℕ) → higher (higher a b) c ≡ higher a (higher b c)
higher_assoc none b c = refl
higher_assoc (some m) none c = refl
higher_assoc (some m) (some n) none = refl
higher_assoc (some m) (some n) (some k) = ground arith

-- to the end: the second argument passes the third
pub higher_swap : (a b c : Option ℕ) → higher (higher a b) c ≡ higher (higher a c) b
higher_swap a b c = higher_assoc a b c ∙ ap (higher a) (higher_comm b c) ∙ sym (higher_assoc a c b)

abbrev pub only_at : ℕ → ℕ → ℕ → Option ℕ
only_at p q off = if q == p then some off else none

-- The highest offset of a partition in a list of offsets.
unfoldable pub top_of : ℕ → Assoc ℕ ℕ → Option ℕ
top_of p [] = none
top_of p ((q, off) ∷ offs) = higher (only_at p q off) (top_of p offs)

pub zero_max : (n : ℕ) → max 0 n ≡ n
zero_max n = omega arith

pub higher_default : (o : Option ℕ) (off : ℕ) → some (max (or_else o 0) off) ≡ higher o (some off)
higher_default none off = ap some (zero_max off)
higher_default (some m) off = refl

pub nothing_acked : (o : Option ℕ) (p : ℕ) → higher (lookup p []) o ≡ o
unfolding lookup
nothing_acked o p = refl

pub lookup-note_max :
    (p q off : ℕ) (m : Assoc ℕ ℕ)
    → lookup p (note_max q off m) ≡ higher (lookup p m) (only_at p q off)
unfolding note_max
lookup-note_max p q off m =
    lookup-insert q p (max (offset_at q m) off) m ∙ elim (Bool-cases (q == p)) [
      | inl same ↦ rw same (
          ap (λ (k : ℕ). some (max (offset_at k m) off)) (beq_eq q p same)
          ∙ higher_default (lookup p m) off)
      | inr other ↦ rw other (sym (higher-none (lookup p m)))
    ]

pub top_of-note_max :
    (p q off : ℕ) (m : Assoc ℕ ℕ)
    → top_of p (note_max q off m) ≡ higher (top_of p m) (only_at p q off)
unfolding note_max top_of insert lookup
top_of-note_max p q off [] = rw (zero_max off) (higher-none (only_at p q off))
top_of-note_max p q off ((j, w) ∷ m) = elim (Bool-cases (j == q)) [
  | inl same ↦ rw same (elim (Bool-cases (q == p)) [
    | inl here ↦
        let both : (j == p) ≡ true = ground (arith, same, here) in
        rw (here, both) (sym (higher_swap (some w) (top_of p m) (some off)))
    | inr there ↦
        let neither : (j == p) ≡ false = ground (arith, same, there) in
        rw (there, neither) (sym (higher-none (top_of p m)))
  ])
  | inr other ↦
      let default : offset_at q ((j, w) ∷ m) ≡ offset_at q m = rw other in
      rw other (
        ap (λ (n : ℕ). higher (only_at p j w) (top_of p (insert q (max n off) m))) default
        ∙ ap (higher (only_at p j w)) (top_of-note_max p q off m)
        ∙ sym (higher_assoc (only_at p j w) (top_of p m) (only_at p q off)))
]
