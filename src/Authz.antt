-- ===== src/Authz.antt =====
-- crates/saffui-core/src/authz
pub mod Schema
pub mod Walk
pub mod Check
pub mod Compile
pub mod Decide
pub mod Parse
pub mod Shares
pub mod Condition
pub mod Policy
