-- ===== src/Executor.antt =====
-- The judge: src/service/executor_service.cc and src/service/executor_service.h. What the operating
-- system answers (pipes, processes, clock, files) is an argument of each function.
pub mod Types
pub mod Output
pub mod Run
pub mod Descriptors
pub mod Limits
pub mod Verdict
pub mod Files
pub mod Execute
