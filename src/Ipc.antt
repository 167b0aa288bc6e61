-- ===== src/Ipc.antt =====
-- The package fcpp_bridge/ipc: one module for each of its files.
pub mod Exec
pub mod Wire
pub mod Outside
pub mod Backend
pub mod Listeners
pub mod Liveness
pub mod Node
pub mod Swarm
pub mod Physical
pub mod Manager
pub mod Channels
pub mod Examples
