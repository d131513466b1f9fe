-- ===== src/Identity.antt =====
-- internal/app/identity: users, groups, roles and refresh tokens.
pub mod Tables
pub mod Repository
pub mod Service
pub mod Invariants
pub mod Kept
pub mod Requests
pub mod Ownership
pub mod Atomic
pub mod Access
pub mod Demotion
pub mod Sessions
pub mod Reuse
