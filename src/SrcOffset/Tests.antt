-- ===== src/SrcOffset/Tests.antt =====
-- Concrete headers.
use market_tick_aggregator.Prelude.{◌≡◌, refl, [], ◌∷◌, ◌++◌, some, arith}
use market_tick_aggregator.Prelude.Int.{pos, negsuc}
use market_tick_aggregator.Kafka.{RecordHeader}
use market_tick_aggregator.SrcOffset.Codec.{encode, decode, Fits, decode-encode}
use market_tick_aggregator.IngestTs.{find, header, find-header}

-- partition -1, offset 300
small-Fits : Fits (negsuc 0) (pos 300)
small-Fits = record {
  partition_above = omega arith;
  partition_below = omega arith;
  offset_above = omega arith;
  offset_below = omega arith;
}

decode-encode_example :
    decode (encode (97 ∷ 98 ∷ []) (negsuc 0) (pos 300))
    ≡ some (record { topic = 97 ∷ 98 ∷ []; partition = negsuc 0; offset = pos 300 })
decode-encode_example = decode-encode (97 ∷ 98 ∷ []) (negsuc 0) (pos 300) small-Fits

abbrev short_header : RecordHeader
short_header = record { key = "ing"; value = 1 ∷ [] }

find-header_example :
    find ((short_header ∷ []) ++ (header (pos 1700000000000) ∷ [])) ≡ some (pos 1700000000000)
find-header_example =
    find-header (short_header ∷ []) [] (pos 1700000000000) (refl, tt) (omega arith) (omega arith)
