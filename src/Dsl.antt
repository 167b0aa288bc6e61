-- ===== src/Dsl.antt =====
-- src/fcpp_bridge/python_dsl: the C++ types of annotations, and the checks of an aggregate class.
pub mod Annotations
pub mod Infer
pub mod Headers
pub mod Includes
pub mod Types
pub mod Validators
pub mod Validation
pub mod CppTypes
pub mod Examples
