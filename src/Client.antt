-- ===== src/Client.antt =====
-- The client (client/gefyra): what it writes for the local WireGuard endpoint.
pub mod Cargo
