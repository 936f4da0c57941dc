-- ===== src/Examples.antt =====
-- Runs of the definitions on concrete inputs, and the theorems at such inputs.
pub mod Bcrypt
pub mod Executor
pub mod Pool
pub mod Router
pub mod Auth
pub mod Logger
pub mod Cleanup
pub mod Submit
pub mod Cookie
pub mod Server
pub mod Mapper
pub mod Tools
pub mod Web
pub mod Config
