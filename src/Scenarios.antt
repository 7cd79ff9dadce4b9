-- ===== src/Scenarios.antt =====
-- Runs of the definitions on concrete inputs.
mod Mounts
mod Bridges
mod Tls
mod Peers
mod Admission
mod Routes
mod Lifecycle
mod Mounting
mod Debris
mod Destinations
mod Installing
mod Watching
mod Wireguard
mod Pods
mod Bridging
mod Connecting
mod Arranging
