-- ===== src/SrcOffset/Seen/Set.antt =====
-- `SeenSet`: one window for each source partition.
use market_tick_aggregator.Prelude.{
  ℕ, ◌≡◌, refl, Bool, List, [], ◌∷◌, if◌then◌else◌, or_else, ◌==◌, Eq, Bool-cases, beq_eq, inl, inr,
}
use market_tick_aggregator.Prelude.Assoc.{Assoc, lookup, insert, lookup-insert}
use market_tick_aggregator.Kafka.{tp_eq}
use market_tick_aggregator.SrcOffset.Seen.{Seen, empty_seen, check}
use market_tick_aggregator.SrcOffset.Seen.Window.{already}
use market_tick_aggregator.SrcOffset.Seen.Once.{seen_after, check-seen_after}

-- `map[SrcKey]*Seen`; no other part of the program writes through one of its pointers.
abbrev pub SeenSet : Type 0 → Type 0
SeenSet K = Assoc K Seen

module _ {K : Type 0} ⦃e : Eq K⦄ where
  -- s[k], a fresh window if there is none
  abbrev pub window_of : SeenSet K → K → Seen
  window_of s k = or_else (lookup k s) empty_seen

  unfoldable pub check_set : SeenSet K → K → ℕ → Bool × SeenSet K
  check_set s k off =
      let (duplicate, seen) = check (window_of s k) off in (duplicate, insert k seen s)

  -- The set after the calls `Check(k, off)` of a stream.
  unfoldable pub set_after : SeenSet K → List (K × ℕ) → SeenSet K
  set_after s [] = s
  set_after s ((k, off) ∷ calls) = set_after (check_set s k off).1 calls

  -- The offsets of one partition in a stream.
  unfoldable pub offsets_of : K → List (K × ℕ) → List ℕ
  offsets_of k [] = []
  offsets_of k ((j, off) ∷ calls) =
      let rest = offsets_of k calls in if j == k then off ∷ rest else rest

  window_of-check_set :
      (s : SeenSet K) (j k : K) (off : ℕ)
      → window_of (check_set s j off).1 k
        ≡ (if j == k then (check (window_of s k) off).1 else window_of s k)
  unfolding check_set
  window_of-check_set s j k off = elim (Bool-cases (j == k)) [
    | inl same ↦ rw (lookup-insert, same, beq_eq j k same)
    | inr other ↦ rw (lookup-insert, other)
  ]

  pub window_of-set_after :
      (s : SeenSet K) (k : K) (calls : List (K × ℕ))
      → window_of (set_after s calls) k ≡ seen_after (window_of s k) (offsets_of k calls)
  unfolding set_after offsets_of seen_after
  window_of-set_after s k [] = refl
  window_of-set_after s k ((j, off) ∷ calls) = elim (Bool-cases (j == k)) [
    | inl same ↦
        rw (window_of-set_after (check_set s j off).1 k calls, window_of-check_set s j k off, same)
    | inr other ↦
        rw (window_of-set_after (check_set s j off).1 k calls, window_of-check_set s j k off, other)
  ]

  -- From the empty set, after any stream of calls, `SeenSet.Check` answers for a partition by the
  -- offsets of that partition alone: whether this one was offered there before, or lies at least
  -- `SeenSpan` behind the highest one offered there.
  pub check_set-set_after :
      (calls : List (K × ℕ)) (k : K) (off : ℕ)
      → (check_set (set_after [] calls) k off).0 ≡ already (offsets_of k calls) off
  unfolding check_set lookup
  check_set-set_after calls k off =
      rw (window_of-set_after [] k calls) (check-seen_after (offsets_of k calls) off)
