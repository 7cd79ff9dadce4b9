-- ===== src/Carrier.antt =====
-- Carrier2: the configuration of the proxies in the target's pods (operator/gefyra/bridge/carrier2).
pub mod Config
pub mod Probes
pub mod Provider
pub mod Admission
pub mod Pods
