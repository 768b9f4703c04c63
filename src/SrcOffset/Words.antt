-- ===== src/SrcOffset/Words.antt =====
-- The uint64 words of shared/srcoffset/seen.go. A word is kept as its 64 flags, bit b at index b,
-- and each Go operation on it is the same operation on the flags.
use market_tick_aggregator.Prelude.{ℕ, ◌-◌, Bool, true, false, not, ◌&&◌, ◌||◌, ltb, leb, nat_beq}

abbrev pub Word : Type 0
Word = ℕ → Bool

-- uint64(0)
abbrev pub no_flags : Word
no_flags b = false

-- ^uint64(0)
abbrev pub all_flags : Word
all_flags b = true

-- 1 << k
abbrev pub one_shl : ℕ → Word
one_shl k b = nat_beq b k

-- (1 << n) - 1, whose n low bits are set
abbrev pub ones : ℕ → Word
ones n b = ltb b n

-- w << k, without what leaves the 64 bits
abbrev pub shl : Word → ℕ → Word
shl w k b = leb k b && ltb b 64 && w (b - k)

-- u | v
abbrev pub bit_or : Word → Word → Word
bit_or u v b = u b || v b

-- u &^ v
abbrev pub and_not : Word → Word → Word
and_not u v b = u b && not (v b)
