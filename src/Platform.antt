-- ===== src/Platform.antt =====
-- internal/platform and internal/messaging: what the services share.
pub mod Auth
pub mod Env
pub mod Streams
pub mod Metrics
pub mod Nats
pub mod Lifecycle
