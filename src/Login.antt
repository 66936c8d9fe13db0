-- ===== src/Login.antt =====
-- crates/saffui-core/src/login
pub mod Fairness
pub mod Counters
pub mod Throttle
pub mod Sessions
