-- ===== src/Oidc.antt =====
-- crates/saffui-core/src/oidc
pub mod Failures
pub mod Scopes
pub mod Pkce
pub mod Codes
pub mod World
pub mod Issue
pub mod Token
pub mod Grant
pub mod Effects
pub mod Parts
pub mod Units
pub mod Issued
pub mod Rotations
pub mod Rotated
pub mod Replays
pub mod Steps
pub mod Safety
pub mod Unspent
pub mod OneGrant
pub mod Marks
pub mod Kept
pub mod Ended
pub mod Revoked
pub mod Clear
pub mod Reuse
pub mod Replayed
pub mod Earned
pub mod Signed
pub mod Granted
pub mod Renewed
pub mod Refused
pub mod Tests
pub mod Once
