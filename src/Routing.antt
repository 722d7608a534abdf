-- ===== src/Routing.antt =====
-- Model and primitive routing: validation/model-routing and kernel/model-routing.
pub mod Types
pub mod Primitives
pub mod Registry
pub mod Providers
pub mod Resolver
pub mod Defaults
pub mod Cascade
pub mod Verifier
pub mod Session
mod Tests
