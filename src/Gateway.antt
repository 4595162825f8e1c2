-- ===== src/Gateway.antt =====
-- internal/gateway: the relying-party reverse proxy and the store of its sessions.
pub mod Store
pub mod Server
pub mod Config
