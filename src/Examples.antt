-- ===== src/Examples.antt =====
-- The theorems at concrete inputs.
pub mod Bytes
pub mod Packets
pub mod Batch
pub mod Queue
pub mod Users
pub mod Chat
pub mod ChatService
pub mod Recycle
pub mod BanchoState
pub mod Processor
pub mod Actions
