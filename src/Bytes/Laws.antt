-- ===== src/Bytes/Laws.antt =====
-- Reading back what was written.
use native.Mathlib.Nat.{pow-suc, mod-eq_of_lt}
use market_tick_aggregator.Prelude.{
  ℕ, zero, suc, ◌+◌, ◌*◌, ◌/◌, ◌%◌, ◌^◌, ◌≤◌, ◌<◌, ◌≡◌, refl, ap, List, [], ◌∷◌, Option, none, some,
  arith, length,
}
use market_tick_aggregator.Prelude.Int.{ℤ, pos, negsuc, pos_part, neg_part}
use market_tick_aggregator.Bytes.{put_bytes, get_bytes, to_unsigned, to_signed}

-- One more byte, read at the end.
abbrev then_byte : Option (ℕ × List ℕ) → Option (ℕ × List ℕ)
then_byte none = none
then_byte (some (acc, bs)) = get_bytes 1 acc bs

get_bytes-suc :
    (k acc : ℕ) (bs : List ℕ) → get_bytes (suc k) acc bs ≡ then_byte (get_bytes k acc bs)
unfolding get_bytes
get_bytes-suc zero acc bs = refl
get_bytes-suc (suc k) acc [] = refl
get_bytes-suc (suc k) acc (b ∷ bs) = get_bytes-suc k (acc * 256 + b) bs

pub get_bytes-put_bytes :
    (k acc n : ℕ) (rest : List ℕ)
    → n < 256 ^ k
    → get_bytes k acc (put_bytes k n rest) ≡ some (acc * 256 ^ k + n, rest)
unfolding put_bytes get_bytes
get_bytes-put_bytes zero acc n rest h = ground arith
get_bytes-put_bytes (suc k) acc n rest h =
    rw
      (
        get_bytes-suc k acc (put_bytes k (n / 256) (n % 256 ∷ rest)),
        get_bytes-put_bytes k acc (n / 256) (n % 256 ∷ rest) (omega (arith, pow-suc 256 k)),
      )
      (ground (arith, shifted))
  where
    shifted : acc * 256 ^ suc k ≡ acc * (256 ^ k * 256)
    shifted = ap (λ (t : ℕ). acc * t) (pow-suc 256 k)

pub length-put_bytes : (k n : ℕ) (rest : List ℕ) → length (put_bytes k n rest) ≡ k + length rest
unfolding put_bytes
length-put_bytes zero n rest = omega arith
length-put_bytes (suc k) n rest = omega (arith, length-put_bytes k (n / 256) (n % 256 ∷ rest))

-- Enough bytes can be read.
pub get_bytes-total :
    (k acc : ℕ) (bs : List ℕ)
    → k ≤ length bs
    → (n : ℕ) × (rest : List ℕ) × (get_bytes k acc bs ≡ some (n, rest))
      × (length bs ≡ k + length rest)
unfolding get_bytes
get_bytes-total zero acc bs h = (acc, bs, refl, omega arith)
get_bytes-total (suc k) acc [] h = absurd (omega arith)
get_bytes-total (suc k) acc (b ∷ bs) h =
    let (n, rest, e, l) = get_bytes-total k (acc * 256 + b) bs (omega arith) in
    (n, rest, e, omega (arith, l))

-- A signed number that fits survives the conversion to unsigned and back.
pub to_signed-to_unsigned :
    (half : ℕ) (z : ℤ)
    → pos_part z < half
    → neg_part z ≤ half
    → to_signed half (to_unsigned (half + half) z) ≡ z
unfolding to_signed to_unsigned
to_signed-to_unsigned half (pos n) h k =
    rw (mod-eq_of_lt {n = n} {m = half + half} (omega arith)) (ground arith)
to_signed-to_unsigned half (negsuc n) h k =
    rw (mod-eq_of_lt {n = n} {m = half + half} (omega arith)) (ground arith)

pub to_unsigned-lt : (m : ℕ) (z : ℤ) → 0 < m → to_unsigned m z < m
unfolding to_unsigned
to_unsigned-lt m (pos n) h = grind arith
to_unsigned-lt m (negsuc n) h = omega arith
