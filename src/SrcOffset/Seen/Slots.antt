-- ===== src/SrcOffset/Seen/Slots.antt =====
-- What setting and clearing flags does to the flag of any offset of a window.
use market_tick_aggregator.Prelude.{
  ℕ, zero, suc, ◌+◌, ◌/◌, ◌%◌, ◌≤◌, ◌<◌, ◌≡◌, refl, inl, inr, false, List, arith, ltb, leb,
  if◌then◌else◌, ◌||◌, ◌&&◌, nat_beq, get_or, length, length-set, replicate, ap, length-replicate,
  get_or-replicate, get_or-set_self, get_or-set_ne, Bool-cases,
}
use native.Mathlib.Decide.{ℕ_discrete}
use market_tick_aggregator.SrcOffset.Words.{Word, no_flags, bit_or, one_shl, and_not}
use market_tick_aggregator.SrcOffset.Seen.{
  seen_span, word_count, slot, set_flag, get_flag, pass_length, pass_mask, clear_pass, clear_loop,
  clear_all,
}

pub length-set_flag : (bits : List Word) (off : ℕ) → length (set_flag bits off) ≡ length bits
unfolding set_flag
length-set_flag bits off = length-set bits _ _

pub length-clear_pass : (bits : List Word) (o hi : ℕ) → length (clear_pass bits o hi) ≡ length bits
unfolding clear_pass
length-clear_pass bits o hi = length-set bits _ _

-- Within a window, two offsets share a slot only if they are equal.
pub get_flag-set_flag :
    (bits : List Word) (off x : ℕ)
    → length bits ≡ word_count
    → x < off + seen_span
    → off < x + seen_span
    → get_flag (set_flag bits off) x ≡ (nat_beq off x || get_flag bits x)
unfolding get_flag set_flag
get_flag-set_flag bits off x l a b = elim (ℕ_discrete (slot off / 64) (slot x / 64)) [
  | yes e ↦ ground (
    arith,
    get_or-set_self bits (slot off / 64)
        (bit_or (get_or bits (slot off / 64) no_flags) (one_shl (slot off % 64))) no_flags,
  )
  | no ne ↦ ground (
    arith,
    get_or-set_ne bits (slot off / 64) (slot x / 64)
        (bit_or (get_or bits (slot off / 64) no_flags) (one_shl (slot off % 64))) no_flags ne,
  )
]

pass_mask_lem :
    (bit n b : ℕ) → bit + n ≤ 64 → b < 64 → pass_mask bit n b ≡ (leb bit b && ltb b (bit + n))
pass_mask_lem bit n b h k = ground arith

-- One pass clears the offsets from `o` to the end of its part of the range, and no others.
pub get_flag-clear_pass :
    (bits : List Word) (o hi x : ℕ)
    → length bits ≡ word_count
    → o ≤ hi
    → hi < o + seen_span
    → x ≤ hi
    → hi < x + seen_span
    → get_flag (clear_pass bits o hi) x ≡ (
        if leb o x
        then (if ltb x (o + pass_length o hi) then false else get_flag bits x)
        else get_flag bits x)
unfolding get_flag clear_pass
get_flag-clear_pass bits o hi x l a a' b c = elim (ℕ_discrete (slot o / 64) (slot x / 64)) [
  | yes e ↦ ground (
    arith,
    get_or-set_self bits (slot o / 64)
        (and_not (get_or bits (slot o / 64) no_flags) (pass_mask (slot o % 64) (pass_length o hi)))
        no_flags,
    pass_mask_lem (slot o % 64) (pass_length o hi) (slot x % 64),
  )
  | no ne ↦ ground (
    arith,
    get_or-set_ne bits (slot o / 64) (slot x / 64)
        (and_not (get_or bits (slot o / 64) no_flags) (pass_mask (slot o % 64) (pass_length o hi)))
        no_flags ne,
  )
]

pub pass_length_pos : (o hi : ℕ) → o ≤ hi → 0 < pass_length o hi
pass_length_pos o hi h = ground arith

pub pass_length-le : (o hi : ℕ) → o ≤ hi → o + pass_length o hi ≤ hi + 1
pass_length-le o hi h = ground arith

pub length-clear_loop :
    (fuel : ℕ) (bits : List Word) (o hi : ℕ) → length (clear_loop fuel bits o hi) ≡ length bits
unfolding clear_loop
length-clear_loop zero bits o hi = refl
length-clear_loop (suc fuel) bits o hi = ground (
  arith,
  length-clear_loop fuel (clear_pass bits o hi) (o + pass_length o hi) hi,
  length-clear_pass bits o hi,
)

-- With fuel for the range, the loop clears exactly the offsets from `o` on.
pub get_flag-clear_loop :
    (fuel : ℕ) (bits : List Word) (o hi x : ℕ)
    → length bits ≡ word_count
    → hi + 1 ≤ o + fuel
    → hi < o + seen_span
    → x ≤ hi
    → hi < x + seen_span
    → get_flag (clear_loop fuel bits o hi) x ≡ (if leb o x then false else get_flag bits x)
unfolding clear_loop
get_flag-clear_loop zero bits o hi x l f c a b = ground arith
get_flag-clear_loop (suc fuel) bits o hi x l f c a b = elim (Bool-cases (leb o hi)) [
  | inl h ↦ ground (
    arith,
    get_flag-clear_loop fuel (clear_pass bits o hi) (o + pass_length o hi) hi x,
    get_flag-clear_pass bits o hi x,
    length-clear_pass bits o hi,
    pass_length_pos o hi,
  )
  | inr h ↦ ground arith
]

pub get_flag-clear_all : (bits : List Word) (x : ℕ) → get_flag (clear_all bits) x ≡ false
unfolding get_flag clear_all
get_flag-clear_all bits x =
    ap (λ (w : Word). w (slot x % 64)) (get_or-replicate (length bits) (slot x / 64) no_flags)

pub length-clear_all : (bits : List Word) → length (clear_all bits) ≡ length bits
unfolding clear_all
length-clear_all bits = length-replicate (length bits) no_flags

pub get_flag-replicate : (n x : ℕ) → get_flag (replicate n no_flags) x ≡ false
unfolding get_flag
get_flag-replicate n x =
    ap (λ (w : Word). w (slot x % 64)) (get_or-replicate n (slot x / 64) no_flags)
