-- ===== src/Engine.antt =====
-- kafka-engine.c: delivery reports, the producer, and the topics.
pub mod Delivery
pub mod Producer
pub mod Topics
