-- ===== src/SrcOffset/Seen.antt =====
-- shared/srcoffset/seen.go, the sliding bitset. Offsets are Kafka's, so they are not negative; the
-- window's lower end may be, and is compared as `off + seen_span <= hi`.
pub mod Slots
pub mod Window
pub mod Once
pub mod Set
mod Tests
use market_tick_aggregator.Prelude.{
  ℕ, zero, suc, ◌+◌, ◌-◌, ◌/◌, ◌%◌, Bool, true, false, List, [], ◌∷◌, ltb, leb, if◌then◌else◌,
  get_or, set, replicate, length,
}
use market_tick_aggregator.SrcOffset.Words.{
  Word, no_flags, all_flags, one_shl, ones, shl, bit_or, and_not,
}

-- const SeenSpan = 1 << 14
abbrev pub seen_span : ℕ
seen_span = 16384

-- SeenSpan / 64
abbrev pub word_count : ℕ
word_count = 256

-- `bits` is nil as [].
pub record Seen : Type 0 where
  pub hi : ℕ
  pub started : Bool
  pub bits : List Word

abbrev pub empty_seen : Seen
empty_seen = record { hi = 0; started = false; bits = [] }

-- off & (SeenSpan - 1)
abbrev pub slot : ℕ → ℕ
slot off = off % seen_span

unfoldable pub set_flag : List Word → ℕ → List Word
set_flag bits off = set bits (i / 64) (bit_or (get_or bits (i / 64) no_flags) (one_shl (i % 64)))
  where
    i : ℕ
    i = slot off

unfoldable pub get_flag : List Word → ℕ → Bool
get_flag bits off = get_or bits (slot off / 64) no_flags (slot off % 64)

-- bits left in the word where `o` sits, or in the range, whichever is less
abbrev pub pass_length : ℕ → ℕ → ℕ
pass_length o hi = let n = 64 - slot o % 64 in let rem = hi - o + 1 in if ltb rem n then rem else n

abbrev pub pass_mask : ℕ → ℕ → Word
pass_mask bit n = if ltb n 64 then shl (ones n) bit else all_flags

-- one pass of the loop: the flags of this word's part of the range go out
unfoldable pub clear_pass : List Word → ℕ → ℕ → List Word
clear_pass bits o hi =
    set bits (slot o / 64)
      (and_not (get_or bits (slot o / 64) no_flags) (pass_mask (slot o % 64) (pass_length o hi)))

-- `for o := lo; o <= hi;` with fuel; a pass moves `o` on by at least one.
unfoldable pub clear_loop : ℕ → List Word → ℕ → ℕ → List Word
clear_loop zero bits o hi = bits
clear_loop (suc fuel) bits o hi =
    let rest = clear_loop fuel (clear_pass bits o hi) (o + pass_length o hi) hi in
    if leb o hi then rest else bits

unfoldable pub clear_range : List Word → ℕ → ℕ → List Word
clear_range bits lo hi = clear_loop (hi + 1 - lo) bits lo hi

-- clear(s.Bits)
unfoldable pub clear_all : List Word → List Word
clear_all bits = replicate (length bits) no_flags

abbrev allocated : List Word → List Word
allocated [] = replicate word_count no_flags
allocated (w ∷ ws) = w ∷ ws

-- the two ways in which the window slides forward
abbrev slide : List Word → ℕ → ℕ → List Word
slide bits hi off =
    if leb seen_span (off - hi) then clear_all bits else clear_range bits (hi + 1) off

check_started : List Word → ℕ → ℕ → Bool × Seen
check_started bits hi off =
    if ltb hi off
    then (false, record { hi = off; started = true; bits = set_flag (slide bits hi off) off })
    else if leb (off + seen_span) hi
    then (true, record { hi = hi; started = true; bits = bits })
    else if get_flag bits off
    then (true, record { hi = hi; started = true; bits = bits })
    else (false, record { hi = hi; started = true; bits = set_flag bits off })

-- Whether `off` was already applied; it is recorded if not.
unfoldable pub check : Seen → ℕ → Bool × Seen
unfolding check_started
check s off =
    if s.started
    then check_started (allocated s.bits) s.hi off
    else (false, record { hi = off; started = true; bits = set_flag (allocated s.bits) off })
