-- ===== src/IngestTs.antt =====
-- shared/ingestts/ingestts.go: the ingest time that a record carries in its `ing` header.
use market_tick_aggregator.Prelude.{
  ℕ, ◌^◌, ◌<◌, ◌≤◌, ◌≡◌, List, [], ◌∷◌, ◌++◌, Option, none, some, false, ◌&&◌, if◌then◌else◌,
  length, arith, String, ◌==◌, string_eq, nat_eq,
}
use market_tick_aggregator.Prelude.Int.{ℤ, pos_part, neg_part}
use market_tick_aggregator.Bytes.{put_bytes, get_bytes, to_unsigned, to_signed}
use market_tick_aggregator.Bytes.Laws.{
  get_bytes-put_bytes, length-put_bytes, to_signed-to_unsigned, to_unsigned-lt,
}
use market_tick_aggregator.Kafka.{RecordHeader}

-- const HeaderKey
abbrev pub header_key : String
header_key = "ing"

unfoldable pub encode : ℤ → List ℕ
encode ms = put_bytes 8 (to_unsigned (2 ^ 64) ms) []

unfoldable pub header : ℤ → RecordHeader
header ms = record { key = header_key; value = encode ms }

abbrev read_ms : Option (ℕ × List ℕ) → Option ℤ
read_ms none = none
read_ms (some (n, rest)) = some (to_signed (2 ^ 63) n)

unfoldable pub find : List RecordHeader → Option ℤ
find [] = none
find (h ∷ hs) =
    if (h.key == header_key) && (length h.value == 8)
    then read_ms (get_bytes 8 0 h.value)
    else find hs

-- A header that `Find` passes over: another key, or a value that is not eight bytes long.
abbrev pub IsOther : RecordHeader → Type 0
IsOther h = ((h.key == header_key) && (length h.value == 8)) ≡ false

abbrev pub AllOther : List RecordHeader → Type 0
AllOther [] = Unit {0}
AllOther (h ∷ hs) = IsOther h × AllOther hs

find-header_first :
    (ms : ℤ) (after : List RecordHeader)
    → pos_part ms < 2 ^ 63
    → neg_part ms ≤ 2 ^ 63
    → find (header ms ∷ after) ≡ some ms
unfolding find header encode
find-header_first ms after h k = ground (
  arith,
  length-put_bytes 8 (to_unsigned (2 ^ 64) ms) [],
  get_bytes-put_bytes 8 0 (to_unsigned (2 ^ 64) ms) [],
  to_unsigned-lt (2 ^ 64) ms,
  to_signed-to_unsigned (2 ^ 63) ms,
)

-- The ingest time that `Header` stamped is found again behind any headers with other keys or with
-- values of another length, whatever headers follow.
pub find-header :
    (before after : List RecordHeader) (ms : ℤ)
    → AllOther before
    → pos_part ms < 2 ^ 63
    → neg_part ms ≤ 2 ^ 63
    → find (before ++ (header ms ∷ after)) ≡ some ms
unfolding find
find-header [] after ms o h k = find-header_first ms after h k
find-header (b ∷ before) after ms o h k = ground (arith, find-header before after ms)
