-- ===== src/Auth.antt =====
-- internal/auth and the parts of internal/domain that it decides about: scopes, authorization, the
-- revocation denylist, and the rotation of refresh credentials.
pub mod Denylist
pub mod Guard
pub mod Scopes
pub mod Token
pub mod AccessToken
pub mod Tokens
pub mod UserCode
pub mod Enrollment
pub mod Sessions
