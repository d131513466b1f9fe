-- ===== src/Streamer.antt =====
-- cmd/sse-streamer: the streams of events that browsers keep open.
pub mod Users
pub mod Reads
pub mod Groups
pub mod Pages
pub mod Events
