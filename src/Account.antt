-- ===== src/Account.antt =====
-- allauth/account: email addresses, codes, and the stages of a login.
pub mod UserCode
pub mod Login
pub mod CodeFlow
pub mod Stages
pub mod Addresses
pub mod Reauthentication
