-- ===== src/Prelude/Assoc.antt =====
-- Go's maps as association lists. A write to a missing key adds it at the end, so every key
-- stands once; the order of iteration, which Go leaves open, is that of the list.
use mathlib.Core.Path.{◌≡◌, refl}
use mathlib.Core.Option.{Option, none, some}
use mathlib.Core.Bool.{false, not, ◌||◌, ◌&&◌}
use mathlib.Core.Logic.{inl, inr}
use mathlib.Core.List.{List, [], ◌∷◌}
use native.Mathlib.Omega.{arith}
use market_tick_aggregator.Prelude.Tests.{if◌then◌else◌, Bool-cases}
use market_tick_aggregator.Prelude.Keys.{Eq, ◌==◌, contains, beq_eq}

abbrev pub Assoc {ℓ κ} : Type ℓ → Type κ → Type (ℓ ⊔ κ)
Assoc K V = List (K × V)

module _ {ℓ κ} {K : Type ℓ} {V : Type κ} ⦃e : Eq K⦄ where
  unfoldable pub lookup : K → Assoc K V → Option V
  lookup k [] = none
  lookup k ((j, v) ∷ m) = if j == k then some v else lookup k m

  unfoldable pub insert : K → V → Assoc K V → Assoc K V
  insert k v [] = (k, v) ∷ []
  insert k v ((j, w) ∷ m) = if j == k then (k, v) ∷ m else (j, w) ∷ insert k v m

  unfoldable pub delete : K → Assoc K V → Assoc K V
  delete k [] = []
  delete k ((j, w) ∷ m) = let rest = delete k m in if j == k then rest else (j, w) ∷ rest

  pub lookup-insert :
      (new key : K) (value : V) (entries : Assoc K V)
      → lookup key (insert new value entries)
        ≡ (if new == key then some value else lookup key entries)
  unfolding insert lookup
  lookup-insert new key value [] = refl
  lookup-insert new key value ((old, v) ∷ entries) = ground (
    arith,
    lookup-insert new key value entries,
    e.sound old new,
    e.sound old key,
    e.sound new key,
  )

  pub lookup-delete :
      (k j : K) (m : Assoc K V) → lookup j (delete k m) ≡ (if k == j then none else lookup j m)
  unfolding lookup delete
  lookup-delete k j [] = ground arith
  lookup-delete k j ((i, w) ∷ m) =
      ground (arith, e.sound k j, e.sound i k, e.sound i j, lookup-delete k j m)

  abbrev pub keys : Assoc K V → List K
  keys [] = []
  keys ((k, v) ∷ m) = k ∷ keys m

  -- Every key stands once, as in a Go map.
  abbrev pub DistinctKeys : Assoc K V → Type 0
  DistinctKeys [] = Unit {0}
  DistinctKeys ((k, v) ∷ m) = (contains k (keys m) ≡ false) × DistinctKeys m

  contains-keys-insert :
      (k j : K) (v : V) (m : Assoc K V)
      → contains j (keys (insert k v m)) ≡ ((k == j) || contains j (keys m))
  unfolding insert
  contains-keys-insert k j v [] = refl
  contains-keys-insert k j v ((i, w) ∷ m) =
      ground (arith, e.sound k j, e.sound i k, e.sound i j, contains-keys-insert k j v m)

  contains-keys-delete :
      (k j : K) (m : Assoc K V)
      → contains j (keys (delete k m)) ≡ (not (k == j) && contains j (keys m))
  unfolding delete
  contains-keys-delete k j [] = ground arith
  contains-keys-delete k j ((i, w) ∷ m) =
      ground (arith, e.sound k j, e.sound i k, e.sound i j, contains-keys-delete k j m)

  pub insert-DistinctKeys :
      (k : K) (v : V) (m : Assoc K V) → DistinctKeys m → DistinctKeys (insert k v m)
  unfolding insert
  insert-DistinctKeys k v [] d = (refl, tt)
  insert-DistinctKeys k v ((i, w) ∷ m) d =
      ground (
        arith,
        e.sound i k,
        e.sound k i,
        insert-DistinctKeys k v m d.1,
        contains-keys-insert k i v m,
      )

  pub delete-DistinctKeys : (k : K) (m : Assoc K V) → DistinctKeys m → DistinctKeys (delete k m)
  unfolding delete
  delete-DistinctKeys k [] d = tt
  delete-DistinctKeys k ((i, w) ∷ m) d =
      ground (arith, delete-DistinctKeys k m d.1, contains-keys-delete k i m)

  pub lookup_of_not_key : (k : K) (m : Assoc K V) → contains k (keys m) ≡ false → lookup k m ≡ none
  unfolding lookup
  lookup_of_not_key k [] h = refl
  lookup_of_not_key k ((i, w) ∷ m) h = ground (arith, lookup_of_not_key k m)

-- A loop over a map that fills another one: the keys for which `f` gives a value.
module _ {ℓ κ μ} {K : Type ℓ} {V : Type κ} {W : Type μ} (f : K → V → Option W) where
  abbrev add_some : K → Option W → Assoc K W → Assoc K W
  add_some k none m = m
  add_some k (some w) m = (k, w) ∷ m

  unfoldable pub collect : Assoc K V → Assoc K W
  collect [] = []
  collect ((k, v) ∷ m) = add_some k (f k v) (collect m)

abbrev pub bind_value {ℓ κ} : {V : Type ℓ} {W : Type κ} → Option V → (V → Option W) → Option W
bind_value none f = none
bind_value (some v) f = f v

abbrev or_value {ℓ} : {V : Type ℓ} → Option V → Option V → Option V
or_value none o = o
or_value (some v) o = some v

or_value-none {ℓ} : {V : Type ℓ} (o : Option V) → or_value o none ≡ o
or_value-none none = refl
or_value-none (some v) = refl

module _ {ℓ κ μ} {K : Type ℓ} {V : Type κ} {W : Type μ} ⦃e : Eq K⦄ (f : K → V → Option W) where
  contains-keys-collect :
      (k : K) (m : Assoc K V)
      → contains k (keys m) ≡ false
      → contains k (keys (collect f m)) ≡ false
  unfolding collect
  contains-keys-collect k [] h = refl
  contains-keys-collect k ((i, v) ∷ m) h = ground (arith, contains-keys-collect k m)

  lookup-add_some :
      (i k : K) (o : Option W) (m : Assoc K W)
      → lookup k (add_some f i o m) ≡ (if i == k then or_value o (lookup k m) else lookup k m)
  unfolding lookup
  lookup-add_some i k none m = ground arith
  lookup-add_some i k (some w) m = refl

  pub lookup-collect :
      (k : K) (m : Assoc K V)
      → DistinctKeys m
      → lookup k (collect f m) ≡ bind_value (lookup k m) (f k)
  unfolding lookup collect
  lookup-collect k [] d = refl
  lookup-collect k ((i, v) ∷ m) d = elim (Bool-cases (i == k)) [
    | inl same ↦
        let e : i ≡ k = beq_eq i k same in
        rw (lookup-add_some i k (f i v) (collect f m), same, e)
          (rw (lookup_of_not_key k (collect f m) (contains-keys-collect k m (rw e at d.0)))
            (or_value-none (f k v)))
    | inr other ↦ rw (lookup-add_some i k (f i v) (collect f m), other) (lookup-collect k m d.1)
  ]
