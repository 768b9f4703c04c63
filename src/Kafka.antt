-- ===== src/Kafka.antt =====
-- The Kafka client's types (franz-go), as far as the program reads them. Offsets and partitions are
-- the broker's, so they are not negative.
use market_tick_aggregator.Prelude.{
  ℕ, ◌≡◌, ◌↔◌, true, ◌&&◌, List, String, arith, Eq, ◌==◌, nat_eq, string_eq, list_eq, list_beq_iff,
}

-- A Go string, as its bytes.
abbrev pub Text : Type 0
Text = List ℕ

-- kgo.RecordHeader
pub record RecordHeader : Type 0 where
  pub key : String
  pub value : List ℕ

-- kgo.Record
pub record Record : Type 0 where
  pub topic : Text
  pub partition : ℕ
  pub offset : ℕ
  pub key : Text
  pub value : List ℕ
  pub headers : List RecordHeader

-- A consumed (topic, partition): `TP`, `tp` and `srcoffset.SrcKey` of the source.
pub record TopicPartition : Type 0 where
  pub topic : Text
  pub partition : ℕ

pub tp_beq_iff :
    (a b : TopicPartition) → ((a.topic == b.topic) && (a.partition == b.partition) ≡ true) ↔ (a ≡ b)
tp_beq_iff a b = (
  λ h. ground (arith, list_beq_iff {A = ℕ} a.topic b.topic),
  λ h. ground (arith, list_beq_iff {A = ℕ} a.topic b.topic),
)

instance abbrev pub tp_eq : Eq TopicPartition
tp_eq = record {
  test = λ a b. (a.topic == b.topic) && (a.partition == b.partition);
  sound = tp_beq_iff;
}
