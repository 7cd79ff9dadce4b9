-- ===== src/Stowaway.antt =====
-- The Stowaway connection provider (operator/gefyra/connection/stowaway).
pub mod ConfigMaps
pub mod Peers
pub mod Routes
pub mod Debris
pub mod Services
pub mod Destinations
pub mod Wireguard
pub mod Status
pub mod Watch
