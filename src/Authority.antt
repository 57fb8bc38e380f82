-- ===== src/Authority.antt =====
-- The review authority of src/review-authority.ts: the alignment answer and the preservation check.
pub mod Alignment
pub mod Multiset
pub mod Preservation
pub mod Soundness
mod Tests
