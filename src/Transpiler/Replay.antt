-- ===== src/Transpiler/Replay.antt =====
-- The visitor (transpiler/python_ast_visitor.py) against the traces of Transpiler/Expected.antt.
pub mod Operators
pub mod Expressions
pub mod Loops
pub mod Statements
