-- ===== src/Auth.antt =====
-- internal/auth/auth.go: who a request comes from, and what it may do.
pub mod Config
pub mod Claims
pub mod Permissions
pub mod Filter
pub mod Outcome
pub mod Keys
pub mod Jwks
pub mod Signature
pub mod Jwt
pub mod Request
