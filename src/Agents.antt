-- ===== src/Agents.antt =====
-- The agents of a run, com.rabbitmq.perf.Producer and Consumer: what a message carries, the
-- confirms of the broker, the loop of a producer, and the acks, the limit and the end of a consumer.
pub mod Messages
pub mod Confirms
pub mod Publishing
pub mod Consuming
