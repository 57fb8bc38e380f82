-- ===== src/Queue.antt =====
-- The bridge queue: src/infrastructure/queue-repository.ts, and the queue's part of
-- src/coordination.ts.
pub mod Rows
pub mod Operations
pub mod Claiming
pub mod Transitions
pub mod Refinement
pub mod Keys
pub mod Fencing
pub mod Receipts
pub mod Routing
pub mod Progress
pub mod Repetition
mod Tests
