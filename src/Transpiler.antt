-- ===== src/Transpiler.antt =====
-- src/fcpp_bridge/transpiler: the translation of a Python method's syntax tree to C++ text.
pub mod Syntax
pub mod Text
pub mod Visitor
pub mod Constants
pub mod Expressions
pub mod Statements
pub mod Effects
pub mod Expected
pub mod Replay
pub mod Reports
pub mod Builder
pub mod Program
pub mod Generated
pub mod Texts
pub mod Examples
