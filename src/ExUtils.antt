-- ===== src/ExUtils.antt =====
-- src/fcpp_bridge/examples/ex_utils: the shared functions of the example programs.
pub mod Tiles
pub mod Clipping
pub mod Storage
pub mod Positions
pub mod Examples
