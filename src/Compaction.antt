-- ===== src/Compaction.antt =====
-- backend/src/meetings/meeting-compaction-coordinator.ts: the barriers that stop writers while a
-- Meeting document is compacted or completed.
pub mod State
pub mod Barriers
pub mod Writers
pub mod Completing
pub mod Store
pub mod Invariant
pub mod Rounds
pub mod Preservation
pub mod Settling
pub mod Finishing
pub mod Run
pub mod Guarantees
pub mod Rejoining
mod Tests
