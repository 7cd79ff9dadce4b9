-- ===== src/Mount.antt =====
-- The Carrier2 bridge mount (operator/gefyra/bridge_mount).
pub mod Names
pub mod Upstreams
pub mod Clone
pub mod Tls
pub mod Calls
pub mod Health
pub mod Install
pub mod Removal
pub mod Prepare
pub mod Ready
