-- ===== src/Tests.antt =====
-- Concrete inputs, on which the theorems are tried.
pub mod Codecs
pub mod Data
pub mod Witnesses
pub mod ReadSide
pub mod Boundaries
pub mod Streams
pub mod Reads
pub mod Groups
pub mod Monitoring
pub mod Pages
pub mod Clients
