-- ===== src/Agenda.antt =====
-- backend/src/meetings/meetings.service.ts: the agenda of a meeting, its sections and positions.
pub mod Positions
pub mod Numbering
pub mod Consecutive
pub mod Apart
pub mod Requests
pub mod Adding
pub mod Removing
pub mod Removal
pub mod Rows
pub mod Addition
pub mod Mutations
mod Tests
pub mod Admission
pub mod Brackets
