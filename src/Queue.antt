-- ===== src/Queue.antt =====
-- internal/queue/rabbit: the messages, the topology and the publisher.
pub mod Message
pub mod Topology
pub mod Declare
