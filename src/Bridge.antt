-- ===== src/Bridge.antt =====
-- The bridge between the Codex side and the runtime: its commands and its queue.
pub mod Protocol
pub mod Encoding
pub mod RoundTrip
pub mod Store
mod Tests
