-- ===== src/Consumer.antt =====
-- src/consumer/shm.rs: the parts of the consumer.
pub mod Reader
pub mod Control
