-- ===== src/Mapper.antt =====
-- The mappers of src/model: one module for each class, with its statements and its functions.
pub mod Select
pub mod Users
pub mod Sessions
pub mod TestCases
pub mod Problems
pub mod Texts
pub mod Spec
pub mod Refinement
pub mod Rows
pub mod Connections
