-- ===== src/Outbox.antt =====
-- internal/outbox: the outbox repository, the relay to Kafka and its counters.
pub mod Repo
pub mod Telemetry
pub mod Relay
pub mod Publisher
