-- ===== src/Recurrence.antt =====
-- backend/src/recurrence/recurrence.service.ts: when a Recurring Topic is due, and the plan that
-- brings its appearances on the agendas in line with that.
pub mod Dates
pub mod Intervals
pub mod Plan
pub mod Build
pub mod Schedule
pub mod Conservation
pub mod Planning
pub mod Taken
pub mod Touched
mod Tests
