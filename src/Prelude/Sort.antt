-- ===== src/Prelude/Sort.antt =====
-- `sort.Slice` of integers in ascending order.
use Prim.Native.Nat.{ℕ, suc, ◌<◌, ◌≤◌}
use mathlib.Core.Path.{◌≡◌, refl, ◌∙◌}
use mathlib.Core.Bool.{false, ◌||◌}
use mathlib.Core.List.{List, [], ◌∷◌, ◌++◌}
use native.Mathlib.Omega.{arith}
use market_tick_aggregator.Prelude.Tests.{leb, if◌then◌else◌}
use market_tick_aggregator.Prelude.Keys.{◌==◌, contains, contains-append, nat_eq}

unfoldable pub insert_sorted : ℕ → List ℕ → List ℕ
insert_sorted a [] = a ∷ []
insert_sorted a (x ∷ xs) = if leb a x then a ∷ x ∷ xs else x ∷ insert_sorted a xs

unfoldable pub sort : List ℕ → List ℕ
unfolding insert_sorted
sort [] = []
sort (x ∷ xs) = insert_sorted x (sort xs)

-- Every element is at least `low`, and none is below the one before it.
abbrev pub AscendingFrom : ℕ → List ℕ → Type 0
AscendingFrom low [] = Unit {0}
AscendingFrom low (x ∷ xs) = (low ≤ x) × AscendingFrom x xs

insert_sorted-AscendingFrom :
    (low a : ℕ) (xs : List ℕ)
    → low ≤ a
    → AscendingFrom low xs
    → AscendingFrom low (insert_sorted a xs)
unfolding insert_sorted
insert_sorted-AscendingFrom low a [] h v = (h, tt)
insert_sorted-AscendingFrom low a (x ∷ xs) h v = ground (arith, insert_sorted-AscendingFrom x a xs)

pub sort-AscendingFrom : (xs : List ℕ) → AscendingFrom 0 (sort xs)
unfolding sort
sort-AscendingFrom [] = tt
sort-AscendingFrom (x ∷ xs) =
    insert_sorted-AscendingFrom 0 x (sort xs) (omega arith) (sort-AscendingFrom xs)

insert_sorted-contains :
    (k a : ℕ) (xs : List ℕ) → contains k (insert_sorted a xs) ≡ ((a == k) || contains k xs)
unfolding insert_sorted
insert_sorted-contains k a [] = refl
insert_sorted-contains k a (x ∷ xs) = ground (arith, insert_sorted-contains k a xs)

-- Sorting keeps the members.
pub sort-contains : (k : ℕ) (xs : List ℕ) → contains k (sort xs) ≡ contains k xs
unfolding sort
sort-contains k [] = refl
sort-contains k (x ∷ xs) = ground (arith, insert_sorted-contains k x (sort xs), sort-contains k xs)

-- Every element is above `low` and above the one before it.
abbrev pub StrictFrom : ℕ → List ℕ → Type 0
StrictFrom low [] = Unit {0}
StrictFrom low (x ∷ xs) = (low ≤ x) × StrictFrom (suc x) xs

-- Every element stands once.
abbrev pub Distinct : List ℕ → Type 0
Distinct [] = Unit {0}
Distinct (x ∷ xs) = (contains x xs ≡ false) × Distinct xs

insert_sorted-StrictFrom :
    (low a : ℕ) (xs : List ℕ)
    → low ≤ a
    → contains a xs ≡ false
    → StrictFrom low xs
    → StrictFrom low (insert_sorted a xs)
unfolding insert_sorted
insert_sorted-StrictFrom low a [] h c v = (h, tt)
insert_sorted-StrictFrom low a (x ∷ xs) h c v =
    ground (arith, insert_sorted-StrictFrom (suc x) a xs)

-- Distinct numbers are sorted into strictly ascending order.
pub sort-StrictFrom : (xs : List ℕ) → Distinct xs → StrictFrom 0 (sort xs)
unfolding sort
sort-StrictFrom [] d = tt
sort-StrictFrom (x ∷ xs) d =
    insert_sorted-StrictFrom 0 x (sort xs) (omega arith) (sort-contains x xs ∙ d.0)
      (sort-StrictFrom xs d.1)

pub Distinct-append_last :
    (x : ℕ) (xs : List ℕ) → contains x xs ≡ false → Distinct xs → Distinct (xs ++ (x ∷ []))
Distinct-append_last x [] h d = (refl, tt)
Distinct-append_last x (y ∷ xs) h d =
    ground (arith, Distinct-append_last x xs, contains-append y xs (x ∷ []))

StrictFrom-not_below :
    (low y : ℕ) (xs : List ℕ) → y < low → StrictFrom low xs → contains y xs ≡ false
StrictFrom-not_below low y [] h v = refl
StrictFrom-not_below low y (x ∷ xs) h v = ground (arith, StrictFrom-not_below (suc x) y xs)

pub StrictFrom-Distinct : (low : ℕ) (xs : List ℕ) → StrictFrom low xs → Distinct xs
StrictFrom-Distinct low [] v = tt
StrictFrom-Distinct low (x ∷ xs) v =
    (StrictFrom-not_below (suc x) x xs (omega arith) v.1, StrictFrom-Distinct (suc x) xs v.1)
