-- ===== src/Auth.antt =====
-- Who a request comes from: the cookie and the handlers of src/handler/auth_handler.cc, and the sessions of
-- src/service/session_service.cc.
pub mod Types
pub mod Cookie
pub mod Session
pub mod Guard
pub mod Login
pub mod Account
pub mod Cleanup
