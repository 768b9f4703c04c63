-- ===== src/Bytes.antt =====
-- encoding/binary's big-endian integers, and Go's conversions between signed and unsigned ones.
-- A byte is a number below 256.
pub mod Laws
use market_tick_aggregator.Prelude.{
  ℕ, zero, suc, ◌+◌, ◌-◌, ◌*◌, ◌/◌, ◌%◌, ◌^◌, List, [], ◌∷◌, Option, none, some, ltb, if◌then◌else◌,
}
use market_tick_aggregator.Prelude.Int.{ℤ, pos, negsuc}

-- The `k` bytes of `n`, the lowest last, in front of `rest`.
unfoldable pub put_bytes : ℕ → ℕ → List ℕ → List ℕ
put_bytes zero n rest = rest
put_bytes (suc k) n rest = put_bytes k (n / 256) (n % 256 ∷ rest)

-- Reads `k` bytes onto `acc`, with what follows them.
unfoldable pub get_bytes : ℕ → ℕ → List ℕ → Option (ℕ × List ℕ)
get_bytes zero acc bs = some (acc, bs)
get_bytes (suc k) acc [] = none
get_bytes (suc k) acc (b ∷ bs) = get_bytes k (acc * 256 + b) bs

-- uint64(x) and uint32(x), for m = 2^64 and 2^32
unfoldable pub to_unsigned : ℕ → ℤ → ℕ
to_unsigned m (pos n) = n % m
to_unsigned m (negsuc n) = m - 1 - n % m

-- int64(x) and int32(x), for half = 2^63 and 2^31
unfoldable pub to_signed : ℕ → ℕ → ℤ
to_signed half n = if ltb n half then pos n else negsuc (half + half - 1 - n)
