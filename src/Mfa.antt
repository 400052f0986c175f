-- ===== src/Mfa.antt =====
-- allauth/mfa: the second factors.
pub mod Bits
pub mod RecoveryCodes
pub mod Totp
pub mod Trust
pub mod Authenticators
