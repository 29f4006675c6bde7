-- ===== src/Bancho.antt =====
-- core/services/bancho: what the service does with the packets of a client.
pub mod Batch
pub mod Processor
