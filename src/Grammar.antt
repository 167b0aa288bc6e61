-- ===== src/Grammar.antt =====
-- src/fcpp_bridge/grammar: the parser of aggregate programs.
pub mod Nodes
pub mod Parser
pub mod Bounded
pub mod Fuel
pub mod Operators
pub mod Dsl
pub mod Examples
