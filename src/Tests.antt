-- ===== src/Tests.antt =====
-- Runs of the models at concrete inputs, some of them those of the repository's own tests.
pub mod Nix
pub mod Cache
pub mod Base64
pub mod Keys
pub mod Patterns
pub mod Tokens
pub mod Collect
pub mod Access
pub mod Claims
pub mod Builds
pub mod Retention
pub mod Read
