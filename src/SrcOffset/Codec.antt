-- ===== src/SrcOffset/Codec.antt =====
-- shared/srcoffset/srcoffset.go: the `src` header, 8 bytes offset, 4 bytes partition, then the topic.
use market_tick_aggregator.Prelude.{
  ℕ, ◌^◌, ◌<◌, ◌≤◌, ◌≡◌, ◌↔◌, inl, inr, List, Option, none, some, ltb, if◌then◌else◌, length, arith,
  Bool-cases, String, ltb→lt,
}
use market_tick_aggregator.Prelude.Int.{ℤ, pos_part, neg_part}
use market_tick_aggregator.Bytes.{put_bytes, get_bytes, to_unsigned, to_signed}
use market_tick_aggregator.Bytes.Laws.{
  get_bytes-put_bytes, length-put_bytes, get_bytes-total, to_signed-to_unsigned, to_unsigned-lt,
}

-- const HeaderKey
abbrev pub header_key : String
header_key = "src"

-- what `Decode` returns beside `ok`
pub record Coordinate : Type 0 where
  pub topic : List ℕ
  pub partition : ℤ
  pub offset : ℤ

unfoldable pub encode : List ℕ → ℤ → ℤ → List ℕ
encode topic partition offset =
    put_bytes 8 (to_unsigned (2 ^ 64) offset) (put_bytes 4 (to_unsigned (2 ^ 32) partition) topic)

abbrev decode_partition : ℕ → Option (ℕ × List ℕ) → Option Coordinate
decode_partition off none = none
decode_partition off (some (p, topic)) =
    some
      (record { topic = topic; partition = to_signed (2 ^ 31) p; offset = to_signed (2 ^ 63) off })

abbrev decode_offset : Option (ℕ × List ℕ) → Option Coordinate
decode_offset none = none
decode_offset (some (off, v)) = decode_partition off (get_bytes 4 0 v)

unfoldable pub decode : List ℕ → Option Coordinate
decode v = if ltb (length v) 12 then none else decode_offset (get_bytes 8 0 v)

-- An int64 offset and an int32 partition.
pub record Fits (partition offset : ℤ) : Type 0 where
  pub partition_above : pos_part partition < 2 ^ 31
  pub partition_below : neg_part partition ≤ 2 ^ 31
  pub offset_above : pos_part offset < 2 ^ 63
  pub offset_below : neg_part offset ≤ 2 ^ 63

-- Every topic, int32 partition and int64 offset, negative ones too, is decoded as it was encoded.
pub decode-encode :
    (topic : List ℕ) (partition offset : ℤ)
    → Fits partition offset
    → decode (encode topic partition offset)
      ≡ some (record { topic = topic; partition = partition; offset = offset })
unfolding decode encode
decode-encode topic partition offset f = ground (
  arith,
  length-put_bytes 8 (to_unsigned (2 ^ 64) offset)
      (put_bytes 4 (to_unsigned (2 ^ 32) partition) topic),
  length-put_bytes 4 (to_unsigned (2 ^ 32) partition) topic,
  get_bytes-put_bytes 8 0 (to_unsigned (2 ^ 64) offset)
      (put_bytes 4 (to_unsigned (2 ^ 32) partition) topic),
  get_bytes-put_bytes 4 0 (to_unsigned (2 ^ 32) partition) topic,
  to_unsigned-lt (2 ^ 64) offset,
  to_unsigned-lt (2 ^ 32) partition,
  to_signed-to_unsigned (2 ^ 63) offset,
  to_signed-to_unsigned (2 ^ 31) partition,
)

decode_total : (v : List ℕ) → 12 ≤ length v → (c : Coordinate) × (decode v ≡ some c)
unfolding decode
decode_total v h =
    let (off, r, e, l) = get_bytes-total 8 0 v (omega arith) in
    let (p, topic, e', l') = get_bytes-total 4 0 r (omega (arith, l)) in
    (
      record { topic = topic; partition = to_signed (2 ^ 31) p; offset = to_signed (2 ^ 63) off },
      ground (arith, e, e'),
    )

-- Decoding fails exactly on values of fewer than 12 bytes.
decode-eq-none : (v : List ℕ) → (decode v ≡ none) ↔ (length v < 12)
decode-eq-none v = (
  λ e. elim (Bool-cases (ltb (length v) 12)) [
    | inl h ↦ ltb→lt (length v) 12 h
    | inr h ↦ let (c, e') = decode_total v (ground arith) in cc (e, e')
  ],
  λ h. unfold decode in ground arith,
)
