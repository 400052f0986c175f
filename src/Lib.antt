-- ===== src/Lib.antt =====
-- django-allauth: authentication, registration and account management for Django. The parts that are
-- modelled are those that decide: rate limits, one-time codes, second factors, the states of logins
-- that are kept in a session or in the cache, and the grants and tokens of the OpenID Connect provider.
--
-- How the parts interact. The views of allauth/account and allauth/headless call flows; the flows keep
-- their state in the session (a login in progress, a code that was sent, the states of social logins)
-- or in Django's cache (rate limits, used one-time passwords). A rate limit guards most flows; a login
-- passes through stages, of which the code, the phone and the email stage hold a process that compares
-- what a user types with a code that was sent; the second factors are asked for in a stage of their
-- own, unless the browser is trusted. The OpenID Connect provider is called by oauthlib through a
-- request validator; it keeps codes in the cache and tokens in the database.
--
-- Files and what they model:
--   Prelude       library names, Boolean tests, lists, dictionaries, texts, decimal numerals
--   Cache         Django's cache as a record of operations and their documented laws; Cache/Local is a
--                 cache in memory that has these laws
--   Ratelimit     allauth/core/internal/ratelimit.py: Window (apply_rate), Parse (parse_rates), Lock
--                 (cache_lock), World (clock, cache and waits), Consume (consume, rollback, clear)
--   Statekit      allauth/socialaccount/internal/statekit.py
--   Mfa           RecoveryCodes and Bits (allauth/mfa/recovery_codes/internal/auth.py), Totp
--                 (allauth/mfa/totp/internal/auth.py), Trust (allauth/mfa/internal/flows/trust.py),
--                 Authenticators (allauth/mfa/base/internal/flows.py)
--   Account       UserCode (allauth/core/internal/cryptokit.py), Login (Login of
--                 allauth/account/models.py, allauth/account/internal/stagekit.py), CodeFlow
--                 (allauth/account/internal/flows/code_verification.py and its subclasses, with the
--                 views that confirm and resend codes), Stages (allauth/account/stages.py and resume_login
--                 of allauth/account/internal/flows/login.py), with Stages/Env and Stages/Emails (what the
--                 stages read and send) and Stages/Handlers (the stages of allauth/account/stages.py,
--                 allauth/mfa/stages.py and allauth/mfa/webauthn/stages.py), Addresses (EmailAddress of
--                 allauth/account/models.py, allauth/account/managers.py,
--                 allauth/account/internal/flows/manage_email.py and verify_email), Reauthentication
--                 (allauth/account/internal/flows/reauthentication.py)
--   Oidc          allauth/idp/oidc, the OpenID Connect provider: Results (exceptions as values), Json (the
--                 fields `data`), Models and Tokens (models.py), Context (the rows, the settings, oauthlib's
--                 request and the ValidatorContext of internal/oauthlib/utils.py), Clients and Redirects
--                 (internal/clientkit.py), Uris and Resources (internal/resources.py), Scopes
--                 (internal/scope.py), PrivateKeys (internal/private_keys.py), Introspection
--                 (internal/tokens.py, introspect_token), Stored, DeviceCodes and AuthorizationCodes
--                 (internal/oauthlib/device_codes.py and authorization_codes.py, over the same Cache),
--                 Issuing (save_bearer_token) and Validator with Validator/Bearer (the other methods of
--                 internal/oauthlib/request_validator.py); Samples is a provider for the tests
--
-- Each state is a record or a dictionary that an operation takes and returns. Texts are lists of code
-- points; times are natural numbers of milliseconds, so that a duration of a setting is multiplied by
-- 1000 where the source compares seconds. A clock that is read twice within one operation is read once.
-- The only loop that waits is the one of cache_lock: it runs over a list of waits, one for each sleep,
-- which say how late the sleep ends and what the other processes did to the cache meanwhile; a hundred
-- waits are always enough. All other loops are structural.
--
-- The life of a device code (DeviceCodes/Life) is a list of events, each a call of the source or a
-- lapse of time, in any order; what is proved of it holds of all such lists.
--
-- Parameters stand for code that is not in the repository: the cache, hashes and HMACs, encryption by
-- the adapter, signing of cookies, random codes, JSON web tokens, and oauthlib, which calls the
-- validator. Python's parsers of URIs are parameters too. Not modelled: HTTP, templates and mails,
-- signals, the database beyond the rows that an operation reads and writes, the social providers, and
-- of the OpenID Connect provider its views, dynamic registration, metadata documents of clients, and
-- the claims of id tokens.
mod Prelude
pub mod Cache
pub mod Ratelimit
pub mod Statekit
pub mod Mfa
pub mod Oidc
pub mod Account
