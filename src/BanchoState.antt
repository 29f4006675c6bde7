-- ===== src/BanchoState.antt =====
-- core/services/bancho_state: the service that keeps the sessions of the online users, and the
-- packets and notices that wait for each of them.
pub mod Geoip
pub mod Enums
pub mod Session
pub mod Info
pub mod Queries
pub mod Token
pub mod Service
