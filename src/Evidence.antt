-- ===== src/Evidence.antt =====
-- Review evidence: src/evidence.ts.
pub mod Bytes
pub mod Capture
pub mod Characters
pub mod Cut
pub mod Porcelain
pub mod Files
pub mod Git
pub mod Failure
mod Tests
