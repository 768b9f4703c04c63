-- ===== src/Orderbook/Backpressure/Counts.antt =====
-- The counts of hot workers, and the workers themselves.
use market_tick_aggregator.Prelude.{
  ℕ, ◌+◌, ◌-◌, ◌≤◌, ◌<◌, ◌≡◌, true, false, List, [], ◌∷◌, Option, none, some, if◌then◌else◌,
  contains, ◌==◌, nat_eq, arith, Bool-cases, inl, inr, beq_eq,
}
use market_tick_aggregator.Prelude.Assoc.{Assoc, lookup, insert, lookup-insert}
use market_tick_aggregator.Orderbook.Backpressure.{WorkerState, count, add_partition, raise, lower}

-- How often a partition stands in a list.
unfoldable pub occurrences : ℕ → List ℕ → ℕ
occurrences p [] = 0
occurrences p (q ∷ qs) = let rest = occurrences p qs in if q == p then 1 + rest else rest

-- What a worker adds to a partition's count while it is hot.
abbrev pub weight : ℕ → WorkerState → ℕ
weight p s = if s.hot then occurrences p s.partitions else 0

abbrev pub weight_of : ℕ → Option WorkerState → ℕ
weight_of p none = 0
weight_of p (some s) = weight p s

unfoldable pub total : ℕ → Assoc ℕ WorkerState → ℕ
total p [] = 0
total p ((w, s) ∷ m) = weight p s + total p m

pub total-insert :
    (p w : ℕ) (s : WorkerState) (m : Assoc ℕ WorkerState)
    → total p (insert w s m) + weight_of p (lookup w m) ≡ total p m + weight p s
unfolding total insert lookup
total-insert p w s [] = omega arith
total-insert p w s ((v, t) ∷ m) = elim (Bool-cases (v == w)) [
  | inl same ↦ rw same (omega arith)
  | inr other ↦ rw other (omega (arith, total-insert p w s m))
]

count-insert :
    (p q n : ℕ) (m : Assoc ℕ ℕ) → count (insert p n m) q ≡ (if p == q then n else count m q)
count-insert p q n m = ground (arith, lookup-insert p q n m)

pub count-raise :
    (q : ℕ) (ps : List ℕ) (m : Assoc ℕ ℕ) → count (raise ps m).0 q ≡ count m q + occurrences q ps
unfolding raise occurrences
count-raise q [] m = omega arith
count-raise q (p ∷ ps) m = ground (
  arith,
  count-raise q ps (insert p (count m p + 1) m),
  count-insert p q (count m p + 1) m,
  beq_eq p q,
)

pub count-lower :
    (q : ℕ) (ps : List ℕ) (m : Assoc ℕ ℕ) → count (lower ps m).0 q ≡ count m q - occurrences q ps
unfolding lower occurrences
count-lower q [] m = omega arith
count-lower q (p ∷ ps) m = ground (
  arith,
  count-lower q ps (insert p (count m p - 1) m),
  count-insert p q (count m p - 1) m,
  beq_eq p q,
)

-- A partition that is paused is one of the worker's.
pub raise-pauses :
    (q : ℕ) (ps : List ℕ) (m : Assoc ℕ ℕ) → contains q (raise ps m).1 ≡ true → 0 < occurrences q ps
unfolding raise occurrences
raise-pauses q [] m h = cc
raise-pauses q (p ∷ ps) m h = ground (arith, raise-pauses q ps (insert p (count m p + 1) m))

-- A partition that is not resumed keeps a count, if it had one.
pub lower-resumes :
    (q : ℕ) (ps : List ℕ) (m : Assoc ℕ ℕ)
    → contains q (lower ps m).1 ≡ false
    → 0 < count m q
    → 0 < count (lower ps m).0 q
unfolding lower
lower-resumes q [] m h k = k
lower-resumes q (p ∷ ps) m h k = ground (
  arith,
  lower-resumes q ps (insert p (count m p - 1) m),
  count-insert p q (count m p - 1) m,
  beq_eq p q,
)

pub occurrences-add_partition :
    (q p : ℕ) (ps : List ℕ) → occurrences q ps ≤ occurrences q (add_partition p ps)
unfolding add_partition occurrences
occurrences-add_partition q p ps = ground arith
