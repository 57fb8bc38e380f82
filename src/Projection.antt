-- ===== src/Projection.antt =====
-- The session projection of src/review-events.ts: plans, reviews and live entries.
pub mod Live
pub mod Reviews
pub mod Bounds
pub mod Consistency
mod Tests
