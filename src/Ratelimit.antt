-- ===== src/Ratelimit.antt =====
-- allauth/core/internal/ratelimit.py: sliding-window rate limits over a shared cache.
pub mod Window
pub mod Parse
pub mod World
pub mod Lock
pub mod Consume
mod Tests
