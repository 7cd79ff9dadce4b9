-- ===== src/Lifecycle.antt =====
-- The life of the resources that the operator watches: their state machines and the handlers.
pub mod Machine
pub mod Clients
pub mod MountStates
pub mod BridgeMounts
pub mod BridgeStates
pub mod Bridges
