-- ===== src/SrcOffset/Seen/Window.antt =====
-- The bitset against the plain history of offsets: what `Check` answers, and what it keeps.
use market_tick_aggregator.Prelude.{
  ℕ, ◌+◌, ◌-◌, ◌≤◌, ◌<◌, ◌≡◌, refl, ◌∙◌, Bool, true, false, List, [], ◌∷◌, arith, leb,
  if◌then◌else◌, ◌||◌, ◌&&◌, max, length, length-replicate, contains, nat_eq,
}
use market_tick_aggregator.SrcOffset.Words.{Word, no_flags}
use market_tick_aggregator.SrcOffset.Seen.{
  Seen, empty_seen, seen_span, word_count, set_flag, get_flag, clear_range, slide, allocated,
  check_started, check,
}
use market_tick_aggregator.SrcOffset.Seen.Slots.{
  length-set_flag, get_flag-set_flag, length-clear_loop, get_flag-clear_loop, length-clear_all,
  get_flag-clear_all, get_flag-replicate,
}

-- The offsets offered so far, the newest first.
abbrev pub History : Type 0
History = List ℕ

abbrev pub highest : History → ℕ
highest [] = 0
highest (x ∷ h) = max x (highest h)

abbrev pub is_nonempty : History → Bool
is_nonempty [] = false
is_nonempty (x ∷ h) = true

-- The specification of `Check`: offered before, or older than the window.
unfoldable pub already : History → ℕ → Bool
already h off = contains off h || (is_nonempty h && leb (off + seen_span) (highest h))

pub record Represents (s : Seen) (h : History) : Type 0 where
  pub starts : s.started ≡ is_nonempty h
  pub fresh : s.started ≡ false → s.bits ≡ []
  pub top : s.hi ≡ highest h
  pub size : length (allocated s.bits) ≡ word_count
  pub flags :
      (x : ℕ) → x ≤ s.hi → s.hi < x + seen_span → get_flag (allocated s.bits) x ≡ contains x h

pub contains-le-highest : (x : ℕ) (h : History) → contains x h ≡ true → x ≤ highest h
contains-le-highest x [] e = cc
contains-le-highest x (y ∷ h) e = ground (arith, contains-le-highest x h)

allocated_of_size : (bits : List Word) → length bits ≡ word_count → allocated bits ≡ bits
allocated_of_size [] e = absurd (omega arith)
allocated_of_size (w ∷ ws) e = refl

pub empty-Represents : Represents empty_seen []
unfolding get_flag
empty-Represents = record {
  starts = refl;
  fresh = λ _. refl;
  top = refl;
  size = length-replicate word_count no_flags;
  flags = λ x a b. get_flag-replicate word_count x;
}

slide-size :
    (bits : List Word) (hi off : ℕ)
    → length bits ≡ word_count
    → length (slide bits hi off) ≡ word_count
unfolding clear_range
slide-size bits hi off l =
    ground (arith, length-clear_all bits, length-clear_loop (off + 1 - (hi + 1)) bits (hi + 1) off)

-- Sliding forward forgets the slots that the window reuses, and keeps the rest.
slide-flags :
    (bits : List Word) (hi off x : ℕ)
    → length bits ≡ word_count
    → hi < off
    → x ≤ off
    → off < x + seen_span
    → get_flag (slide bits hi off) x ≡ (if leb (hi + 1) x then false else get_flag bits x)
unfolding clear_range
slide-flags bits hi off x l a b c =
    ground (
      arith,
      get_flag-clear_all bits x,
      get_flag-clear_loop (off + 1 - (hi + 1)) bits (hi + 1) off x,
    )

-- What one call answers and leaves, for a window that has started.
module _ (bits : List Word) (h : History) (off : ℕ) (size : length bits ≡ word_count)
    (nonempty : is_nonempty h ≡ true)
    (flags : (x : ℕ)
      → x ≤ highest h
      → highest h < x + seen_span
      → get_flag bits x ≡ contains x h) where
  check_started-already : (check_started bits (highest h) off).0 ≡ already h off
  unfolding check_started already
  check_started-already = ground (arith, flags off, contains-le-highest off h)

  check_started-bits : length (check_started bits (highest h) off).1.bits ≡ word_count
  unfolding check_started
  check_started-bits = ground (
    arith,
    slide-size bits (highest h) off,
    length-set_flag (slide bits (highest h) off) off,
    length-set_flag bits off,
  )

  check_started-hi : (check_started bits (highest h) off).1.hi ≡ max off (highest h)
  unfolding check_started
  check_started-hi = ground arith

  check_started-flags :
      (x : ℕ)
      → x ≤ max off (highest h)
      → max off (highest h) < x + seen_span
      → get_flag (check_started bits (highest h) off).1.bits x ≡ contains x (off ∷ h)
  unfolding check_started
  check_started-flags x a b = ground (
    arith,
    flags x,
    flags off,
    contains-le-highest x h,
    slide-size bits (highest h) off,
    slide-flags bits (highest h) off x,
    get_flag-set_flag (slide bits (highest h) off) off x,
    get_flag-set_flag bits off x,
  )

check_started-started :
    (bits : List Word) (hi off : ℕ) → (check_started bits hi off).1.started ≡ true
unfolding check_started
check_started-started bits hi off = ground arith

-- The first offset only opens the window.
first-flags :
    (bits : List Word) (off x : ℕ)
    → length bits ≡ word_count
    → ((x : ℕ) → get_flag bits x ≡ false)
    → x ≤ off
    → off < x + seen_span
    → get_flag (set_flag bits off) x ≡ contains x (off ∷ [])
first-flags bits off x l f a b = ground (arith, get_flag-set_flag bits off x l, f x)

flags_at_highest :
    {s : Seen} {h : History}
    → Represents s h
    → (x : ℕ) → x ≤ highest h
    → highest h < x + seen_span
    → get_flag (allocated s.bits) x ≡ contains x h
flags_at_highest r x a b = r.flags x (omega (arith, r.top)) (omega (arith, r.top))

-- `Check` answers as the specification does.
pub check-already :
    (s : Seen) (h : History) (off : ℕ) → Represents s h → (check s off).0 ≡ already h off
unfolding check already
check-already s [] off r = ground (arith, r.starts)
check-already s (y ∷ h) off r =
    rw (r.starts, r.top, check)
      (check_started-already (allocated s.bits) (y ∷ h) off r.size refl (flags_at_highest r))

check-first :
    (s : Seen) (off : ℕ)
    → Represents s []
    → check s off ≡ (false, record { hi = off; started = true; bits = set_flag (allocated []) off })
unfolding check
check-first s off r = ground (arith, r.starts, r.fresh)

check-later :
    (s : Seen) (y off : ℕ) (h : History)
    → Represents s (y ∷ h)
    → check s off ≡ check_started (allocated s.bits) (highest (y ∷ h)) off
unfolding check
check-later s y off h r = rw (r.starts, r.top, check)

-- It keeps the window faithful to the history.
pub check-Represents :
    (s : Seen) (h : History) (off : ℕ) → Represents s h → Represents (check s off).1 (off ∷ h)
check-Represents s [] off r = rw (check-first s off r) (record {
  starts = refl;
  fresh = λ e. cc;
  top = omega arith;
  size = rw (allocated_of_size _ sized) sized;
  flags = λ x a b. rw (allocated_of_size _ sized) (
      first-flags (allocated []) off x (length-replicate word_count no_flags)
        (get_flag-replicate word_count) a b);
})
  where
    sized : length (set_flag (allocated []) off) ≡ word_count
    sized = length-set_flag (allocated []) off ∙ length-replicate word_count no_flags
check-Represents s (y ∷ h) off r = rw (check-later s y off h r) (record {
  starts = started;
  fresh = λ e. cc started;
  top = check_started-hi bits (y ∷ h) off r.size refl flags;
  size = rw (allocated_of_size _ sized) sized;
  flags = λ x a b. rw (allocated_of_size _ sized) (
      check_started-flags bits (y ∷ h) off r.size refl flags x
        (omega (arith, check_started-hi bits (y ∷ h) off r.size refl flags))
        (omega (arith, check_started-hi bits (y ∷ h) off r.size refl flags)));
})
  where
    bits : List Word
    bits = allocated s.bits

    flags :
        (x : ℕ)
        → x ≤ highest (y ∷ h)
        → highest (y ∷ h) < x + seen_span
        → get_flag bits x ≡ contains x (y ∷ h)
    flags = flags_at_highest r

    started : (check_started bits (highest (y ∷ h)) off).1.started ≡ true
    started = check_started-started bits (highest (y ∷ h)) off

    sized : length (check_started bits (highest (y ∷ h)) off).1.bits ≡ word_count
    sized = check_started-bits bits (y ∷ h) off r.size refl flags
