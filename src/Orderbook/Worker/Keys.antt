-- ===== src/Orderbook/Worker/Keys.antt =====
-- The keys of a symbol: in lower case where a snapshot is written, as it came where it is read.
use market_tick_aggregator.Prelude.{
  ℕ, ◌+◌, ◌≡◌, refl, sym, ap, ◌∙◌, Bool, true, false, List, [], ◌∷◌, ◌++◌, none, if◌then◌else◌, leb,
  Eq, ◌==◌, nat_eq, list_eq, ◌&&◌, ◌||◌, or_else, arith, Bool-cases, inl, inr, beq_eq,
}
use mathlib.Core.List.{append_assoc, append-nil}
use market_tick_aggregator.Prelude.Assoc.{Assoc, lookup}
use market_tick_aggregator.Kafka.{Text}
use market_tick_aggregator.Orderbook.OrderedTree.{PriceOrder, OrderedTree}
use market_tick_aggregator.Orderbook.Worker.{
  StoredSnapshot, append_lower_ascii, buffer_key, redis_key, new_state, state_from,
  restore_or_create_state,
}

abbrev pub is_upper : ℕ → Bool
is_upper c = leb 65 c && leb c 90

-- a capital ASCII letter
abbrev pub any_upper : Text → Bool
any_upper [] = false
any_upper (c ∷ cs) = is_upper c || any_upper cs

any_upper-append : (a b : Text) → any_upper (a ++ b) ≡ (any_upper a || any_upper b)
any_upper-append [] b = refl
any_upper-append (c ∷ a) b = ground (arith, any_upper-append a b)

lowered-not_upper : (c : ℕ) → is_upper (if leb 65 c && leb c 90 then c + 32 else c) ≡ false
lowered-not_upper c = ground arith

any_upper-append_lower_ascii :
    (dst src : Text) → any_upper dst ≡ false → any_upper (append_lower_ascii dst src) ≡ false
unfolding append_lower_ascii
any_upper-append_lower_ascii dst [] h = h
any_upper-append_lower_ascii dst (c ∷ src) h =
    let low : ℕ = if leb 65 c && leb c 90 then c + 32 else c in
    any_upper-append_lower_ascii (dst ++ low ∷ []) src
      (any_upper-append dst (low ∷ []) ∙ rw (h, lowered-not_upper c))

any_upper-buffer_key : (exchange symbol : Text) → any_upper (buffer_key exchange symbol) ≡ false
unfolding buffer_key
any_upper-buffer_key exchange symbol =
    let lower = append_lower_ascii [] exchange in
    any_upper-append_lower_ascii (lower ++ 58 ∷ []) symbol
      (any_upper-append lower (58 ∷ []) ∙ rw (any_upper-append_lower_ascii [] exchange refl))

append_lower_ascii-append :
    (dst src : Text) → any_upper src ≡ false → append_lower_ascii dst src ≡ dst ++ src
unfolding append_lower_ascii
append_lower_ascii-append dst [] h = sym (append-nil dst)
append_lower_ascii-append dst (c ∷ src) h =
    let (kept, rest) = no_upper c src h in
    rw kept (append_lower_ascii-append (dst ++ c ∷ []) src rest ∙ append_assoc dst (c ∷ []) src)
  where
    no_upper :
        (d : ℕ) (cs : Text)
        → any_upper (d ∷ cs) ≡ false
        → ((leb 65 d && leb d 90) ≡ false) × (any_upper cs ≡ false)
    no_upper d cs g = ground (arith, g)

buffer_key-redis_key :
    (exchange symbol : Text)
    → any_upper (redis_key exchange symbol) ≡ false
    → buffer_key exchange symbol ≡ redis_key exchange symbol
unfolding buffer_key
buffer_key-redis_key exchange symbol h =
    let parts : (any_upper exchange ≡ false) × (any_upper symbol ≡ false) =
      both (any_upper exchange) (any_upper symbol)
        (sym (any_upper-append exchange (58 ∷ symbol)) ∙ h) in
    rw (append_lower_ascii-append [] exchange parts.0) (
      append_lower_ascii-append (exchange ++ 58 ∷ []) symbol parts.1
      ∙ append_assoc exchange (58 ∷ []) symbol)
  where
    both : (a b : Bool) → (a || b) ≡ false → (a ≡ false) × (b ≡ false)
    both a b g = ground (arith, g)

-- What Redis holds after snapshots of these symbols were written, the newest first: each under the key
-- that the worker's map has for it.
abbrev pub written : List (Text × Text × List ℕ) → Assoc Text (List ℕ)
written [] = []
written ((exchange, symbol, bytes) ∷ writes) = (buffer_key exchange symbol, bytes) ∷ written writes

lookup-written :
    (key : Text) (writes : List (Text × Text × List ℕ))
    → any_upper key ≡ true
    → lookup key (written writes) ≡ none
unfolding lookup
lookup-written key [] h = refl
lookup-written key ((exchange, symbol, bytes) ∷ writes) h =
    elim (Bool-cases (buffer_key exchange symbol == key)) [
      | inl same ↦ cc (
        h,
        any_upper-buffer_key exchange symbol,
        ap any_upper (beq_eq (buffer_key exchange symbol) key same),
      )
      | inr other ↦ rw other (lookup-written key writes h)
    ]

module _ {P Q : Type 0} ⦃e : Eq P⦄ ⦃o : PriceOrder P⦄ (x : OrderedTree P Q) (is_removal : Q → Bool)
    (unmarshal : List ℕ → StoredSnapshot P Q) where
  -- Whatever snapshots were written to Redis, each under the lower-case key of its symbol: a symbol
  -- whose exchange or name has a capital letter starts from an empty book, since the key that is read
  -- keeps the capitals; any other symbol starts from the newest snapshot written under its key, or
  -- from an empty book if that has no bytes.
  pub restore_or_create_state-written :
      (writes : List (Text × Text × List ℕ)) (exchange symbol : Text)
      → restore_or_create_state x is_removal unmarshal (written writes) exchange symbol ≡ (
          if any_upper (redis_key exchange symbol)
          then new_state x is_removal exchange symbol
          else state_from x is_removal unmarshal
              (or_else (lookup (buffer_key exchange symbol) (written writes)) [])
              exchange
              symbol)
  unfolding restore_or_create_state
  restore_or_create_state-written writes exchange symbol =
      elim (Bool-cases (any_upper (redis_key exchange symbol))) [
        | inl capital ↦ rw (capital, lookup-written (redis_key exchange symbol) writes capital)
        | inr plain ↦ rw (plain, buffer_key-redis_key exchange symbol plain)
      ]
