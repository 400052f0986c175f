-- ===== src/Oidc.antt =====
-- allauth/idp/oidc: the OpenID Connect provider.
pub mod Results
pub mod Json
pub mod Models
pub mod Context
pub mod Clients
pub mod Stored
pub mod DeviceCodes
pub mod Uris
pub mod Tokens
pub mod Issuing
pub mod Validator
pub mod Introspection
pub mod Redirects
pub mod Scopes
pub mod PrivateKeys
pub mod AuthorizationCodes
pub mod Resources
pub mod Samples
