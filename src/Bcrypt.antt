-- ===== src/Bcrypt.antt =====
-- Password hashing: src/utils/bcrypt.cpp and src/utils/bcrypt.h, one module for each stage.
pub mod Base64
pub mod Tables
pub mod Core
pub mod Hash
