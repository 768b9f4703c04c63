-- ===== src/Adapter.antt =====
-- adapter: the ring between a feed's websocket reader and its Kafka producer.
pub mod Ring
