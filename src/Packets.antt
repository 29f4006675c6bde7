-- ===== src/Packets.antt =====
-- lib/bancho-packets.
pub mod Ids
pub mod Words
pub mod Uleb
pub mod Utf8
pub mod Reader
pub mod Items
pub mod Frames
pub mod Builder
pub mod Structs
pub mod Server
