-- ===== src/SrcOffset/Seen/Once.antt =====
-- A whole stream of source offsets through `Check`, replays and reordered records included.
use market_tick_aggregator.Prelude.{
  ℕ, ◌+◌, ◌<◌, ◌≡◌, refl, ◌∙◌, true, false, List, [], ◌∷◌, arith, if◌then◌else◌, ◌||◌, max,
  contains, nat_eq, nat_beq_iff,
}
use market_tick_aggregator.SrcOffset.Seen.{Seen, empty_seen, seen_span, check}
use market_tick_aggregator.SrcOffset.Seen.Window.{
  History, highest, is_nonempty, already, Represents, empty-Represents, check-already,
  check-Represents,
}

-- The state after `Check` was called on each offset in turn.
unfoldable pub seen_after : Seen → List ℕ → Seen
seen_after s [] = s
seen_after s (off ∷ offs) = seen_after (check s off).1 offs

-- The offsets that a consumer applies: those which `Check` does not report as duplicates.
unfoldable pub applied : Seen → List ℕ → List ℕ
applied s [] = []
applied s (off ∷ offs) =
    let rest = applied (check s off).1 offs in if (check s off).0 then rest else off ∷ rest

offered : History → List ℕ → History
offered h [] = h
offered h (off ∷ offs) = offered (off ∷ h) offs

seen_after-Represents :
    (s : Seen) (h : History) (offs : List ℕ)
    → Represents s h
    → Represents (seen_after s offs) (offered h offs)
unfolding seen_after offered
seen_after-Represents s h [] r = r
seen_after-Represents s h (off ∷ offs) r =
    seen_after-Represents (check s off).1 (off ∷ h) offs (check-Represents s h off r)

contains-offered :
    (x : ℕ) (h : History) (offs : List ℕ)
    → contains x (offered h offs) ≡ (contains x offs || contains x h)
unfolding offered
contains-offered x h [] = refl
contains-offered x h (off ∷ offs) = ground (arith, contains-offered x (off ∷ h) offs)

highest-offered :
    (h : History) (offs : List ℕ) → highest (offered h offs) ≡ max (highest offs) (highest h)
unfolding offered
highest-offered h [] = omega arith
highest-offered h (off ∷ offs) = omega (arith, highest-offered (off ∷ h) offs)

is_nonempty-offered :
    (h : History) (offs : List ℕ)
    → is_nonempty (offered h offs) ≡ (is_nonempty offs || is_nonempty h)
unfolding offered
is_nonempty-offered h [] = refl
is_nonempty-offered h (off ∷ offs) = ground (arith, is_nonempty-offered (off ∷ h) offs)

-- After any stream of offsets, in any order and with any repeats, `Check` reports an offset as a
-- duplicate exactly when it was offered before, or when something was offered and the offset is at
-- least `SeenSpan` behind the highest one offered.
pub check-seen_after :
    (offs : List ℕ) (off : ℕ) → (check (seen_after empty_seen offs) off).0 ≡ already offs off
unfolding already
check-seen_after offs off =
    check-already _ _ off (seen_after-Represents empty_seen [] offs empty-Represents) ∙ same
  where
    same : already (offered [] offs) off ≡ already offs off
    same =
        ground (
          arith,
          contains-offered off [] offs,
          highest-offered [] offs,
          is_nonempty-offered [] offs,
        )

-- Every element stands once.
abbrev pub Distinct : List ℕ → Type 0
Distinct [] = Unit {0}
Distinct (x ∷ xs) = (contains x xs ≡ false) × Distinct xs

applied-not_again :
    (s : Seen) (h : History) (offs : List ℕ) (x : ℕ)
    → Represents s h
    → contains x h ≡ true
    → contains x (applied s offs) ≡ false
unfolding applied already
applied-not_again s h [] x r e = refl
applied-not_again s h (off ∷ offs) x r e = ground (
  arith,
  check-already s h off r,
  nat_beq_iff off x,
  applied-not_again (check s off).1 (off ∷ h) offs x (check-Represents s h off r),
)

applied-Distinct_from :
    (s : Seen) (h : History) (offs : List ℕ) → Represents s h → Distinct (applied s offs)
unfolding applied
applied-Distinct_from s h [] r = tt
applied-Distinct_from s h (off ∷ offs) r = ground (
  arith,
  applied-Distinct_from (check s off).1 (off ∷ h) offs (check-Represents s h off r),
  applied-not_again (check s off).1 (off ∷ h) offs off (check-Represents s h off r),
)

-- Whatever the stream repeats or reorders, no offset is applied twice.
pub applied-Distinct : (offs : List ℕ) → Distinct (applied empty_seen offs)
applied-Distinct offs = applied-Distinct_from empty_seen [] offs empty-Represents

-- No offset arrives `SeenSpan` or more behind the highest one before it.
abbrev pub WithinReach : History → List ℕ → Type 0
WithinReach h [] = Unit {0}
WithinReach h (off ∷ offs) = (highest h < off + seen_span) × WithinReach (off ∷ h) offs

-- The first occurrence of each offset that is not in the history, in order of arrival.
unfoldable pub first_occurrences : History → List ℕ → List ℕ
first_occurrences h [] = []
first_occurrences h (off ∷ offs) =
    let rest = first_occurrences (off ∷ h) offs in if contains off h then rest else off ∷ rest

applied-first_occurrences_from :
    (s : Seen) (h : History) (offs : List ℕ)
    → Represents s h
    → WithinReach h offs
    → applied s offs ≡ first_occurrences h offs
unfolding applied first_occurrences already
applied-first_occurrences_from s h [] r w = refl
applied-first_occurrences_from s h (off ∷ offs) r w = ground (
  arith,
  check-already s h off r,
  applied-first_occurrences_from (check s off).1 (off ∷ h) offs (check-Represents s h off r) w.1,
)

-- If no offset arrives `SeenSpan` or more behind the highest one before it, a consumer applies the
-- first occurrence of every offset, in the order of arrival, and nothing else: no loss and no repeat.
pub applied-first_occurrences :
    (offs : List ℕ) → WithinReach [] offs → applied empty_seen offs ≡ first_occurrences [] offs
applied-first_occurrences offs w =
    applied-first_occurrences_from empty_seen [] offs empty-Represents w
